-- ===== src/Service/Decisions.antt =====
-- internal/service/lifecycle.go: ApproveWorkflow, RejectWorkflow and SubmitInput, and the sweeps of
-- internal/scheduler/approvaltimeoutresolver.go and inputtimeoutresolver.go: each moves a run past
-- its gate and appends the row that says who decided what.
use boundflow.Base.{
  ℕ, ◌≡◌, inl, inr, Bool, true, false, Option, none, some, ◌∷◌, if◌then◌else◌, arith, Option-cases,
  is,
}
use boundflow.Domain.Status.{JobStatus}
use boundflow.Domain.Audit.{AuditEvent, Details, ApprovalDecision, InputDecision}
use boundflow.Domain.Rows.{Job, Gate}
use boundflow.Store.{Store}
use boundflow.Store.Gates.{
  Resolved, resolve_approval, resolve_input, sweep_expired_approvals, sweep_expired_inputs,
}
use boundflow.Service.{Reply, ok, refused, ServiceError}

-- Which calls of a decision fail: the decision itself, or the row that records it.
pub record DecisionFaults : Type 0 where
  pub resolve : Bool
  pub audit : Bool

abbrev pub append : Bool → AuditEvent → Store → Store
append fault a s = if fault then s else record s { audit = a ∷ s.audit }

-- recordApprovalDecision.
abbrev pub approval_row : ℕ → ℕ → ℕ → ℕ → ApprovalDecision → Resolved → AuditEvent
approval_row now id actor reason decision info = record {
  request_id = info.request_id;
  actor = actor;
  occurred_at = now;
  details = Details.approval (record {
    approval_id = id;
    opened_at = info.opened_at;
    decided_at = now;
    decision = decision;
    justification = info.detail;
    reason = reason;
  });
}

-- recordInputDecision.
abbrev pub input_row : ℕ → ℕ → ℕ → InputDecision → Option ℕ → Resolved → AuditEvent
input_row now id actor decision answer info = record {
  request_id = info.request_id;
  actor = actor;
  occurred_at = now;
  details = Details.input (record {
    input_id = id;
    opened_at = info.opened_at;
    decided_at = now;
    decision = decision;
    answer = answer;
    prompt = info.detail;
  });
}

-- ApproveJob and RejectJob of the scheduler, and the audit.
unfoldable pub decide_workflow :
    DecisionFaults → ℕ → ℕ → ℕ → ℕ → JobStatus → ApprovalDecision → Store → Store × Reply (Unit {0})
decide_workflow x now id actor reason status decision s =
    if x.resolve
    then (s, refused ServiceError.storage)
    else let (t, info) = resolve_approval id status reason s in
      (elim info [
        | none ↦ (t, refused ServiceError.invalid_workflow_state)
        | some r ↦ (append x.audit (approval_row now id actor reason decision r) t, ok tt)
      ])

-- ApproveWorkflow and RejectWorkflow.
unfoldable pub approve_workflow : DecisionFaults → ℕ → ℕ → ℕ → ℕ → Store → Store × Reply (Unit {0})
approve_workflow x now id actor reason s =
    decide_workflow x now id actor reason JobStatus.approved ApprovalDecision.approved s

unfoldable pub reject_workflow : DecisionFaults → ℕ → ℕ → ℕ → ℕ → Store → Store × Reply (Unit {0})
reject_workflow x now id actor reason s =
    decide_workflow x now id actor reason JobStatus.rejected ApprovalDecision.rejected s

-- SubmitInput.
unfoldable pub submit_input :
    DecisionFaults → ℕ → ℕ → ℕ → Option ℕ → Store → Store × Reply (Unit {0})
submit_input x now id actor answer s =
    if x.resolve
    then (s, refused ServiceError.storage)
    else let (t, info) = resolve_input id answer s in
      (elim info [
        | none ↦ (t, refused ServiceError.invalid_workflow_state)
        | some r ↦
            (append x.audit (input_row now id actor InputDecision.answered answer r) t, ok tt)
      ])

-- The actor of a timeout, the empty text; the reason, too.
abbrev nobody : ℕ
nobody = 0

abbrev pub resolved_of : Job → Gate → Resolved
resolved_of j g = record { request_id = j.request_id; opened_at = g.opened_at; detail = g.detail }

-- A column as the sweep scans it; that of a row that ran out is not NULL.
abbrev column : Option ℕ → ℕ
column none = 0
column (some n) = n

-- The row of a timeout is stamped with the time at which the gate ran out, not with that of the sweep.
abbrev pub approval_timeout : Job → AuditEvent
approval_timeout j =
    approval_row (column j.approval.timeout_at) (column j.approval.id) nobody 0
      ApprovalDecision.timed_out (resolved_of j j.approval)

abbrev pub input_timeout : Job → AuditEvent
input_timeout j =
    input_row (column j.input.timeout_at) (column j.input.id) nobody InputDecision.timed_out none
      (resolved_of j j.input)

-- The sweeps of the two timeout resolvers, on the workflow's job.
unfoldable pub sweep_approvals : DecisionFaults → ℕ → ℕ → Store → Store
sweep_approvals x now partition s = if x.resolve then s else (elim s.job [
  | none ↦ s
  | some j ↦
      let (t, expired) = sweep_expired_approvals now partition s in
      if expired then append x.audit (approval_timeout j) t else t
])

unfoldable pub sweep_inputs : DecisionFaults → ℕ → ℕ → Store → Store
sweep_inputs x now partition s = if x.resolve then s else (elim s.job [
  | none ↦ s
  | some j ↦
      let (t, expired) = sweep_expired_inputs now partition s in
      if expired then append x.audit (input_timeout j) t else t
])

-- What an answered call left: the job waited at its gate `id`, the run moved on with the decision, and
-- one row was added, of the request that waited, with what it was asked and since when.
pub record IsDecided (s t : Store) (id : ℕ) (waited status : JobStatus) (g : Job → Gate)
    (row : Resolved → AuditEvent) : Type 0 where
  pub before : Job
  pub was : s.job ≡ some before
  pub waits : before.status ≡ waited
  pub open_gate : is (g before).id id ≡ true
  pub after : (j : Job) → t.job ≡ some j → j.status ≡ status
  pub audited : t.audit ≡ row (resolved_of before (g before)) ∷ s.audit

-- What a call leaves: nothing where it was refused.
abbrev pub IsAnswered :
    Store
    → Store × Reply (Unit {0})
    → ℕ
    → JobStatus
    → JobStatus
    → (Job → Gate)
    → (Resolved → AuditEvent)
    → Type 0
IsAnswered s (t, ok u) id gate status g row = IsDecided s t id gate status g row
IsAnswered s (t, refused e) id gate status g row = t ≡ s

decide-IsAnswered :
    (x : DecisionFaults) (now id actor reason : ℕ) (status : JobStatus)
    (decision : ApprovalDecision) (s : Store)
    → x.audit ≡ false
    → IsAnswered s
        (decide_workflow x now id actor reason status decision s)
        id
        JobStatus.awaiting_approval
        status
        (λ j. j.approval)
        (approval_row now id actor reason decision)
unfolding decide_workflow resolve_approval
decide-IsAnswered x now id actor reason status decision s logged = elim (Option-cases s.job) [
  | inl p ↦ ground (arith, p)
  | inr (j, p) ↦ ground (arith, p, logged)
]

-- An approval, a rejection or an answer: where it is refused, by a failed call or because the gate is
-- not open under that id, nothing has changed; otherwise the job waited at that gate, it moved on as
-- decided, and exactly one audit row was added, which names who decided, the request that waited, what it
-- was asked and since when (the append of that row itself succeeding).
pub decisions_answered :
    (x : DecisionFaults) (now id actor reason : ℕ) (answer : Option ℕ) (s : Store)
    → x.audit ≡ false
    → IsAnswered s
        (approve_workflow x now id actor reason s)
        id
        JobStatus.awaiting_approval
        JobStatus.approved
        (λ j. j.approval)
        (approval_row now id actor reason ApprovalDecision.approved)
      × IsAnswered s
          (reject_workflow x now id actor reason s)
          id
          JobStatus.awaiting_approval
          JobStatus.rejected
          (λ j. j.approval)
          (approval_row now id actor reason ApprovalDecision.rejected)
      × IsAnswered s
          (submit_input x now id actor answer s)
          id
          JobStatus.awaiting_input
          JobStatus.answered
          (λ j. j.input)
          (input_row now id actor InputDecision.answered answer)
unfolding approve_workflow reject_workflow submit_input resolve_input
decisions_answered x now id actor reason answer s logged = (
  decide-IsAnswered x now id actor reason JobStatus.approved ApprovalDecision.approved s logged,
  decide-IsAnswered x now id actor reason JobStatus.rejected ApprovalDecision.rejected s logged,
  (elim (Option-cases s.job) [
    | inl p ↦ ground (arith, p)
    | inr (j, p) ↦ ground (arith, p, logged)
  ]),
)
