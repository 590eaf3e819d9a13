-- ===== src/Store/Once.antt =====
-- internal/storage/postgres/job.go: the statements that race for one transition of a job, of which
-- one wins.
use boundflow.Base.{ℕ, ◌≡◌, ◌≢◌, true, false, Option, none, arith}
use boundflow.Domain.Status.{JobStatus, is_awaiting_approval, is_awaiting_input}
use boundflow.Store.{Store}
use boundflow.Store.Gates
use boundflow.Store.Recovery

-- Nothing that ends a gate finds one that is open.
pub record IsSettled (s : Store) : Type 0 where
  pub approval :
      (id : ℕ) (status : JobStatus) (reason : ℕ)
      → Gates.resolve_approval id status reason s ≡ (s, none)
  pub input : (id : ℕ) (answer : Option ℕ) → Gates.resolve_input id answer s ≡ (s, none)
  pub approval_timeout :
      (now partition : ℕ) → Gates.sweep_expired_approvals now partition s ≡ (s, false)
  pub input_timeout : (now partition : ℕ) → Gates.sweep_expired_inputs now partition s ≡ (s, false)

-- Once an approval was decided, by a status that is no waiting one, every later decision, answer
-- and timeout finds no open gate and leaves the store alone.
decided_once :
    (s : Store) (id : ℕ) (status : JobStatus) (reason : ℕ)
    → is_awaiting_approval status ≡ false
    → is_awaiting_input status ≡ false
    → (Gates.resolve_approval id status reason s).1 ≢ none
    → IsSettled (Gates.resolve_approval id status reason s).0
unfolding Gates.resolve_approval Gates.resolve_input Gates.sweep_expired_approvals
    Gates.sweep_expired_inputs
decided_once s id status reason no_approval no_input won = record {
  approval = λ i st re. ground arith;
  input = λ i an. ground arith;
  approval_timeout = λ now p. ground arith;
  input_timeout = λ now p. ground arith;
}

-- Once an input was answered, every later answer, decision and timeout finds no open gate.
answered_once :
    (s : Store) (id : ℕ) (answer : Option ℕ)
    → (Gates.resolve_input id answer s).1 ≢ none
    → IsSettled (Gates.resolve_input id answer s).0
unfolding Gates.resolve_approval Gates.resolve_input Gates.sweep_expired_approvals
    Gates.sweep_expired_inputs
answered_once s id answer won = record {
  approval = λ i st re. ground arith;
  input = λ i an. ground arith;
  approval_timeout = λ now p. ground arith;
  input_timeout = λ now p. ground arith;
}

-- Once an approval timed out, every later decision, answer and timeout finds no open gate.
approval_expired_once :
    (s : Store) (now partition : ℕ)
    → (Gates.sweep_expired_approvals now partition s).1 ≡ true
    → IsSettled (Gates.sweep_expired_approvals now partition s).0
unfolding Gates.resolve_approval Gates.resolve_input Gates.sweep_expired_approvals
    Gates.sweep_expired_inputs
approval_expired_once s now partition won = record {
  approval = λ i st re. ground arith;
  input = λ i an. ground arith;
  approval_timeout = λ t p. ground arith;
  input_timeout = λ t p. ground arith;
}

-- Once an input timed out, every later decision, answer and timeout finds no open gate.
input_expired_once :
    (s : Store) (now partition : ℕ)
    → (Gates.sweep_expired_inputs now partition s).1 ≡ true
    → IsSettled (Gates.sweep_expired_inputs now partition s).0
unfolding Gates.resolve_approval Gates.resolve_input Gates.sweep_expired_approvals
    Gates.sweep_expired_inputs
input_expired_once s now partition won = record {
  approval = λ i st re. ground arith;
  input = λ i an. ground arith;
  approval_timeout = λ t p. ground arith;
  input_timeout = λ t p. ground arith;
}

-- What closes a gate: a decision that found it, an answer that found it, or a timeout of either kind.
pub data Closed (s : Store) : Store → Type 0 where
  decided :
      (id : ℕ) (status : JobStatus) (reason : ℕ)
      → is_awaiting_approval status ≡ false
      → is_awaiting_input status ≡ false
      → (Gates.resolve_approval id status reason s).1 ≢ none
      → Closed s (Gates.resolve_approval id status reason s).0
  answered :
      (id : ℕ) (answer : Option ℕ)
      → (Gates.resolve_input id answer s).1 ≢ none
      → Closed s (Gates.resolve_input id answer s).0
  approval_expired :
      (now partition : ℕ)
      → (Gates.sweep_expired_approvals now partition s).1 ≡ true
      → Closed s (Gates.sweep_expired_approvals now partition s).0
  input_expired :
      (now partition : ℕ)
      → (Gates.sweep_expired_inputs now partition s).1 ≡ true
      → Closed s (Gates.sweep_expired_inputs now partition s).0

-- However a gate was closed, by a decision to a status that waits at no gate, by an answer or by a
-- timeout: every later decision, answer and timeout finds no open gate and leaves the store alone.
pub gate_once : {s t : Store} → Closed s t → IsSettled t
gate_once {s} (Closed.decided id status reason no_approval no_input won) =
    decided_once s id status reason no_approval no_input won
gate_once {s} (Closed.answered id answer won) = answered_once s id answer won
gate_once {s} (Closed.approval_expired now partition won) =
    approval_expired_once s now partition won
gate_once {s} (Closed.input_expired now partition won) = input_expired_once s now partition won

-- Of the reports of one failure, the pair of a request and its attempts, the one that requeued the
-- job is the only one to act: every later requeue or claim of the same pair matches no row, and no
-- job is deleted.
pub requeued_once :
    (s : Store) (request_id attempts : ℕ)
    → (Recovery.requeue_job request_id attempts s).1 ≡ true
    → let t = (Recovery.requeue_job request_id attempts s).0 in
      (Recovery.requeue_job request_id attempts t ≡ (t, false))
      × (Recovery.claim_failed_job request_id attempts t ≡ (t, false))
      × ((id : ℕ) → Recovery.delete_terminal_job id t ≡ (t, false))
unfolding Recovery.requeue_job Recovery.claim_failed_job Recovery.delete_terminal_job
requeued_once s request_id attempts won = (ground arith, ground arith, (λ id. ground arith))

-- After a failure was claimed, no requeue of any attempts of any request brings the job back.
pub claimed_once :
    (s : Store) (request_id attempts id n : ℕ)
    → (Recovery.claim_failed_job request_id attempts s).1 ≡ true
    → let t = (Recovery.claim_failed_job request_id attempts s).0 in
      Recovery.requeue_job id n t ≡ (t, false)
unfolding Recovery.requeue_job Recovery.claim_failed_job
claimed_once s request_id attempts id n won = ground arith
