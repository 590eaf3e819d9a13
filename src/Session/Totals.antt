-- ===== src/Session/Totals.antt =====
-- internal/rpcworker/rpcworker.go: what a session stores of an operation that is still running. Every
-- report is the running total of the operation, so it takes the place of the one before.
use boundflow.Base.{ℕ, ◌≡◌, refl, Bool, true, false, some, List, [], ◌∷◌, Map, arith, All, is}
use boundflow.Domain.Metrics.{AgentMetrics}
use boundflow.Domain.Rows.{Job}
use boundflow.Metrics.{merge_agent_metrics}
use boundflow.Store.{Store}
use boundflow.Store.Jobs
use boundflow.System.{session_write}
use boundflow.Session.{
  OperationStatus, OperationResult, Held, Env, Calls, job_totals, record_snapshot,
}
use boundflow.Session.Dispatch.{Session}
use boundflow.Session.Machine
use boundflow.Session.Machine.{Event, WorkerMessage, move}

-- A message that reports on the running operation `id`.
abbrev pub report_on : ℕ → OperationResult → Event
report_on id r = Event.message (WorkerMessage.update id (some r))

-- The moves of a session on one message after another.
unfoldable pub take_reports :
    Env → Calls → ℕ → List OperationResult → Store × Session → Store × Session
take_reports e x id [] p = p
take_reports e x id (r ∷ rest) p = take_reports e x id rest (move e x p.1 (report_on id r) p.0)

-- An interim report that names an agent.
abbrev pub names_agent : Map AgentMetrics → Bool
names_agent [] = false
names_agent (m ∷ rest) = true

abbrev is_running : OperationStatus → Bool
is_running OperationStatus.in_progress = true
is_running _ = false

abbrev pub IsReport : OperationResult → Type 0
IsReport r = (is_running r.status ≡ true) × (names_agent r.agent_state_updates ≡ true)

abbrev pub newest : Map AgentMetrics → List OperationResult → Map AgentMetrics
newest m [] = m
newest m (r ∷ rest) = newest r.agent_state_updates rest

-- The row and the session after a report.
abbrev pub with_report : Env → Held → Map AgentMetrics → Job → Store → Store
with_report e h m j s = record s {
  job = some (record j { agent_metrics = merge_agent_metrics e.floats m h.job.agent_metrics });
}

one_report :
    (e : Env) (x : Calls) (h : Held) (r : OperationResult) (j : Job) (s : Store)
    → x.report ≡ false
    → s.job ≡ some j
    → is j.owner e.session_id ≡ true
    → IsReport r
    → move e x (Session.busy h) (report_on h.job.request_id r) s ≡ (
      with_report e h r.agent_state_updates j s,
      Session.busy (record h { this_op = r.agent_state_updates }),
    )
unfolding move Machine.take_update Machine.take_result Machine.record_interim Machine.report_interim
    record_snapshot job_totals session_write Jobs.update_job_metrics
one_report e x h r j s ok there owned report = ground (arith, ok, there, owned, report)

-- Interim reports of a session that owns the job, whose writes go through: after any number of them, at
-- least one, the session is still on the operation with the newest snapshot, and the row holds the
-- metrics that the job had when it was taken merged with that snapshot alone, whatever the reports
-- before it said and whatever the row held meanwhile; nothing else in the store has changed.
pub take_reports-newest :
    (e : Env) (x : Calls) (h : Held) (r : OperationResult) (rest : List OperationResult) (j : Job)
    (s : Store)
    → x.report ≡ false
    → s.job ≡ some j
    → is j.owner e.session_id ≡ true
    → IsReport r
    → All IsReport rest
    → let m = newest r.agent_state_updates rest in
      take_reports e x h.job.request_id (r ∷ rest) (s, Session.busy h)
      ≡ (with_report e h m j s, Session.busy (record h { this_op = m }))
unfolding take_reports
take_reports-newest e x h r [] j s ok there owned report all =
    one_report e x h r j s ok there owned report
take_reports-newest e x h r (q ∷ rest) j s ok there owned report all =
    rw (one_report e x h r j s ok there owned report) (
      take_reports-newest e x (record h { this_op = r.agent_state_updates }) q rest
        (record j {
          agent_metrics = merge_agent_metrics e.floats r.agent_state_updates h.job.agent_metrics;
        })
        (with_report e h r.agent_state_updates j s) ok refl owned all.0 all.1)
