-- ===== src/Store/Requests.antt =====
-- internal/storage/postgres/customer_request.go: the queue of a workflow's invocations.
use boundflow.Base.{
  ℕ, ◌+◌, Bool, true, ◌&&◌, not, Option, none, some, List, [], ◌∷◌, ◌++◌, map, ◌==◌, ltb, any,
  count, keep, if◌then◌else◌,
}
use boundflow.Domain.Status.{
  RequestStatus, RequestType, RunOutcome, is_active, is_unscheduled, is_queued, is_running,
  is_closed,
}
use boundflow.Domain.Rows.{Request}
use boundflow.Store.{Store, update_requests}

-- The part of a new request that the caller chooses.
pub record NewRequest : Type 0 where
  pub id : ℕ
  pub request_type : RequestType
  pub request_info : ℕ

abbrev pub new_request : ℕ → NewRequest → ℕ → Request
new_request now n version = record {
  id = n.id;
  status = RequestStatus.unscheduled;
  request_type = n.request_type;
  request_info = n.request_info;
  version = version;
  run_outcome = none;
  failure_reason = 0;
  result = none;
  created_at = now;
  completed_at = none;
}

-- The version that the workflow allocates next.
abbrev pub next_version : Store → ℕ
next_version s = s.workflow.target_version + 1

abbrev allocated : ℕ → NewRequest → Store → Store
allocated now n s = record s {
  workflow = record (s.workflow) { target_version = next_version s };
  requests = s.requests ++ (new_request now n (next_version s) ∷ []);
}

-- CreateInvocationRequest: the version allocated, or none for ErrInvalidLifecycleState.
unfoldable pub create_invocation_request : ℕ → NewRequest → Store → Store × Option ℕ
create_invocation_request now n s =
    if is_active s.workflow.workflow_state
    then (allocated now n s, some (next_version s))
    else (s, none)

abbrev later : Option ℕ → ℕ → ℕ
later none n = n
later (some m) n = if ltb n m then m else n

-- `COALESCE(max(completed_at), 'epoch')`.
unfoldable pub last_completion : List Request → ℕ
last_completion [] = 0
last_completion (r ∷ rs) = later r.completed_at (last_completion rs)

-- CreateDuePeriodicRequest.
unfoldable pub create_due_periodic_request : ℕ → NewRequest → ℕ → Store → Store × Option ℕ
create_due_periodic_request now n gap s =
    if is_active s.workflow.workflow_state
      && not (any (λ r. not (is_closed r.status)) s.requests)
      && ltb (last_completion s.requests + gap) now
    then (allocated now n s, some (next_version s))
    else (s, none)

-- `$2 IS NULL OR id = ANY($2)`.
unfoldable pub is_named : Option (List ℕ) → ℕ → Bool
is_named none id = true
is_named (some ids) id = any (λ i. i == id) ids

abbrev pub is_dropped : Option (List ℕ) → Request → Bool
is_dropped ids r = is_queued r.status && is_named ids r.id

-- AbandonQueuedRequests: the requests that were dropped.
unfoldable pub abandon_queued_requests : Option (List ℕ) → Store → Store × List ℕ
abandon_queued_requests ids s = (
  update_requests (is_dropped ids) (λ r. record r { status = RequestStatus.abandoned }) s,
  map (λ r. r.id) (keep (is_dropped ids) s.requests),
)

-- HasRunningRequest.
unfoldable pub has_running_request : Store → Bool
has_running_request s = any (λ r. is_running r.status) s.requests

-- CountUnscheduledRequests.
unfoldable pub count_unscheduled_requests : Store → ℕ
count_unscheduled_requests s = count (λ r. is_unscheduled r.status) s.requests

-- Get, over the requests of the slice.
unfoldable pub find_request : ℕ → List Request → Option Request
find_request id [] = none
find_request id (r ∷ rs) = if r.id == id then some r else find_request id rs

-- CompleteRequest.
unfoldable pub complete_request_row : ℕ → ℕ → RunOutcome → ℕ → Option ℕ → Store → Store
complete_request_row now id outcome reason result =
    update_requests (λ r. r.id == id)
      (λ r. record r {
        status = RequestStatus.completed;
        run_outcome = some outcome;
        failure_reason = reason;
        result = result;
        completed_at = some now;
      })

-- FailRequest.
unfoldable pub fail_request_row : ℕ → ℕ → ℕ → Store → Store
fail_request_row now id reason =
    update_requests (λ r. r.id == id)
      (λ r. record r {
        status = RequestStatus.failed;
        run_outcome = some RunOutcome.interrupted;
        failure_reason = reason;
        completed_at = some now;
      })
