-- ===== src/Store/Selection.antt =====
-- internal/storage/postgres/scheduler.go: which request GetTopUnscheduledRequests puts first.
use boundflow.Base.{
  ◌≤◌, ◌≡◌, refl, inl, inr, true, false, Option, none, some, List, [], ◌∷◌, ◌++◌, All, All-weaken,
  Bool-cases, arith, ap,
}
use boundflow.Domain.Status.{InvokeMode, is_queue, is_unscheduled}
use boundflow.Domain.Rows.{Request}
use boundflow.Store.Scheduling.{first_unscheduled, first_of_two, precedes}

abbrev pub Open : Request → Type 0
Open r = is_unscheduled r.status ≡ true

-- The request is served no later than the other: the oldest first in a queue, the newest
-- otherwise.
abbrev pub ServedBefore : InvokeMode → Request → Request → Type 0
ServedBefore mode r q =
    (is_queue mode ≡ true → r.version ≤ q.version) × (is_queue mode ≡ false → q.version ≤ r.version)

pub record IsFirst (mode : InvokeMode) (rs : List Request) (r : Request) : Type 0 where
  pub before : List Request
  pub after : List Request
  pub place : rs ≡ before ++ (r ∷ after)
  pub unscheduled : Open r
  pub leads : All (λ q. Open q → ServedBefore mode r q) rs

abbrev pub Selected : InvokeMode → List Request → Option Request → Type 0
Selected mode rs none = All (λ q. is_unscheduled q.status ≡ false) rs
Selected mode rs (some r) = IsFirst mode rs r

-- One that leads what is behind it leads with a closed request, or one that it precedes, in front.
pushed :
    (mode : InvokeMode) (q : Request) (rs : List Request) (r : Request)
    → (Open q → ServedBefore mode r q)
    → IsFirst mode rs r
    → IsFirst mode (q ∷ rs) r
pushed mode q rs r leads first = record {
  before = q ∷ first.before;
  after = first.after;
  place = ap (λ xs. q ∷ xs) first.place;
  unscheduled = first.unscheduled;
  leads = (leads, first.leads);
}

-- One in front leads where it precedes the leader of the rest.
put-IsFirst :
    (mode : InvokeMode) (q : Request) (rs : List Request)
    → Open q
    → All (λ x. Open x → ServedBefore mode q x) rs
    → IsFirst mode (q ∷ rs) q
put-IsFirst mode q rs o leads = record {
  before = [];
  after = rs;
  place = refl;
  unscheduled = o;
  leads = ((λ _. ground arith), leads);
}

skip-Selected :
    (mode : InvokeMode) (q : Request) (rs : List Request) (rest : Option Request)
    → is_unscheduled q.status ≡ false
    → Selected mode rs rest
    → Selected mode (q ∷ rs) rest
skip-Selected mode q rs none closed all = (closed, all)
skip-Selected mode q rs (some b) closed first =
    pushed mode q rs b (λ o. absurd (cc (o, closed))) first

choose-Selected :
    (mode : InvokeMode) (q : Request) (rs : List Request) (rest : Option Request)
    → Open q
    → Selected mode rs rest
    → Selected mode (q ∷ rs) (some (first_of_two mode q rest))
choose-Selected mode q rs none o all =
    put-IsFirst mode q rs o (All-weaken _ _ (λ x closed h. absurd (cc (closed, h))) rs all)
choose-Selected mode q rs (some b) o first = elim (Bool-cases (precedes mode b q)) [
  | inl behind ↦ rw behind (pushed mode q rs b (λ _. ground arith) first)
  | inr ahead ↦ rw ahead (
      put-IsFirst mode q rs o
        (All-weaken _ _ (λ x leads h. ground (arith, leads h)) rs first.leads))
]

-- GetTopUnscheduledRequests answers with an unscheduled request of the workflow, none of whose
-- unscheduled requests is older (in a queue) or newer (otherwise), and with none only where no
-- request is unscheduled.
pub first_unscheduled-Selected :
    (mode : InvokeMode) (rs : List Request) → Selected mode rs (first_unscheduled mode rs)
unfolding first_unscheduled
first_unscheduled-Selected mode [] = tt
first_unscheduled-Selected mode (q ∷ rs) = elim (Bool-cases (is_unscheduled q.status)) [
  | inl o ↦ rw o (choose-Selected mode q rs _ o (first_unscheduled-Selected mode rs))
  | inr closed ↦ rw closed (skip-Selected mode q rs _ closed (first_unscheduled-Selected mode rs))
]
