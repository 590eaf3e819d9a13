-- ===== src/Service/Histories.antt =====
-- internal/service/lifecycle.go: the calls of the service, and the sweeps of the gates' timeouts, as
-- histories of statements.
use boundflow.Base.{
  ℕ, ◌≡◌, refl, inl, inr, Bool, true, false, not, ◌&&◌, Option, none, List, ◌∷◌, if◌then◌else◌,
  arith, Option-cases,
}
use boundflow.Domain.Status.{JobStatus}
use boundflow.Reconcilers.Ticks.{finalize-Reach}
use boundflow.Domain.Audit.{AuditEvent, ApprovalDecision, InputDecision}
use boundflow.Domain.Policy.{Floats, Policy}
use boundflow.Domain.Rows.{Workflow, WorkflowConfig}
use boundflow.Store.{Store}
use boundflow.Store.Requests
use boundflow.Store.Lifecycle
use boundflow.Store.Agents as StoredAgents
use boundflow.Store.Gates
use boundflow.Store.Gates.{Resolved}
use boundflow.Store.Suspension
use boundflow.Scheduler.{Assembly, ScheduleFaults, get_workflow}
use boundflow.System.{Step, Reach, is_decision}
use boundflow.System.Runs.{Reach-trans, once, either-Reach, schedule_request-Reach}
use boundflow.Service
use boundflow.Service.{Reply, ok, refused, ServiceError, HoldFaults, InvokeFaults, Invocation}
use boundflow.Service.Resume
use boundflow.Service.Resume.{ResumeState, resolve-IsResumed}
use boundflow.Service.Decisions
use boundflow.Service.Decisions.{DecisionFaults}

try_schedule-Reach :
    (x : ScheduleFaults) (now id : ℕ) (a : Assembly) (s : Store)
    → Reach s (Service.try_schedule x now id a s)
unfolding Service.try_schedule
try_schedule-Reach x now id a s = schedule_request-Reach x now id a (get_workflow s) s

create-Reach :
    (x : InvokeFaults) (now : ℕ) (i : Invocation) (timeout : ℕ) (s : Store)
    → Reach s (Service.create_and_schedule x now i timeout s).0
unfolding Service.create_and_schedule
create-Reach x now i timeout s =
    let r = Requests.create_invocation_request now (Service.request_of i timeout) s in
    let here : Reach s s = Reach.here in
    let k : Reach s r.0 = once (Step.invoke now (Service.request_of i timeout)) in
    ground (
      arith,
      here,
      k,
      Reach-trans k (try_schedule-Reach x.schedule now i.id (i.assembly timeout) r.0),
    )

valid-Reach :
    (x : InvokeFaults) (now : ℕ) (i : Invocation) (params : Reply ℕ) (s : Store)
    → Reach s (Service.create_if_valid x now i params s).0
unfolding Service.create_if_valid
valid-Reach x now i (refused e) s = Reach.here
valid-Reach x now i (ok timeout) s = create-Reach x now i timeout s

invoke-Reach :
    (x : InvokeFaults) (now : ℕ) (i : Invocation) (w : Workflow) (s : Store)
    → Reach s (Service.invoke_workflow x now i w s).0
unfolding Service.invoke_workflow
invoke-Reach x now i w s =
    let here : Reach s s = Reach.here in
    ground
      (arith, here, valid-Reach x now i (Service.resolve_runtime_params i.timeout_seconds w true) s)

periodic-Reach :
    (x : InvokeFaults) (now : ℕ) (i : Invocation) (gap : ℕ) (params : Reply ℕ) (s : Store)
    → Reach s (Service.periodic_if_valid x now i gap params s).0
unfolding Service.periodic_if_valid Service.create_periodic
periodic-Reach x now i gap (refused e) s = Reach.here
periodic-Reach x now i gap (ok timeout) s =
    let n = Service.request_of i timeout in
    let r = Requests.create_due_periodic_request now n gap s in
    let here : Reach s s = Reach.here in
    let k : Reach s r.0 = once (Step.invoke_periodic now n gap) in
    ground (
      arith,
      here,
      k,
      Reach-trans k (try_schedule-Reach x.schedule now i.id (i.assembly timeout) r.0),
    )

stop-Reach :
    (x : HoldFaults) (now id : ℕ) (stop : Bool) (s : Store)
    → Reach s (Service.stop_if_asked x now id stop s)
stop-Reach x now id stop s =
    either-Reach (stop && not x.abandon) (once (Step.abandon now id)) Reach.here

suspend-Reach :
    (x : HoldFaults) (now id reason : ℕ) (stop : Bool) (s : Store)
    → Reach s (Service.suspend_workflow x now id reason stop s).0
unfolding Service.suspend_workflow
suspend-Reach x now id reason stop s =
    let r = Suspension.mark_suspension_requested now id reason stop s in
    let u = Service.stop_if_asked x now id stop r.0 in
    let here : Reach s s = Reach.here in
    let k : Reach s r.0 = once (Step.suspend now id reason stop) in
    let l = Reach-trans k (stop-Reach x now id stop r.0) in
    ground (arith, here, k, Reach-trans l (finalize-Reach x now id u))

drain-Reach : (x : HoldFaults) (now : ℕ) (s : Store) → Reach s (Service.drain_and_delete x now s).0
unfolding Service.drain_and_delete
drain-Reach x now s =
    let t = (Requests.abandon_queued_requests none s).0 in
    let here : Reach s s = Reach.here in
    let k : Reach s t = once (Step.drop_queued none) in
    ground (arith, here, k, Reach.next k (Step.finish_deletion now))

delete-Reach : (x : HoldFaults) (now : ℕ) (s : Store) → Reach s (Service.delete_workflow x now s).0
unfolding Service.delete_workflow
delete-Reach x now s =
    let r = Lifecycle.mark_deletion_requested now s in
    let here : Reach s s = Reach.here in
    let k : Reach s r.0 = once (Step.request_deletion now) in
    ground (arith, here, k, Reach-trans k (drain-Reach x now r.0))

restore-Reach :
    (fault : Bool) (id : ℕ) (w : Workflow) (r : ResumeState) (s : Store)
    → Resume.IsResumed r
    → Reach s (Resume.restore_to fault id w r s).0
unfolding Resume.restore_to Resume.IsResumed
restore-Reach fault id w r s free =
    let here : Reach s s = Reach.here in
    elim (Option-cases r.state) [
      | inl e ↦ ground (arith, e, here)
      | inr (state, e) ↦
          let k =
            once {s = s} (Step.resume id (Resume.target_of w r state) (ground (arith, e, free))) in
          ground (arith, e, here, k)
    ]

resume-Reach :
    (read write : Bool) (f : Floats) (now id : ℕ) (w : Workflow) (s : Store)
    → Reach s (Resume.resume_workflow read write f now id w s).0
unfolding Resume.resume_workflow
resume-Reach read write f now id w s =
    let here : Reach s s = Reach.here in
    elim (Option-cases (Resume.resolve_resume_state f now w s)) [
      | inl e ↦ ground (arith, e, here)
      | inr (r, e) ↦
          ground (arith, e, here, restore-Reach write id w r s (resolve-IsResumed f now w s r e))
    ]

append-Reach : (fault : Bool) (a : AuditEvent) (s : Store) → Reach s (Decisions.append fault a s)
append-Reach fault a s = either-Reach fault Reach.here (once (Step.append_audit (a ∷ s.audit)))

decide-Reach :
    (x : DecisionFaults) (now id actor reason : ℕ) (status : JobStatus) (d : ApprovalDecision)
    (s : Store)
    → is_decision status ≡ true
    → Reach s (Decisions.decide_workflow x now id actor reason status d s).0
unfolding Decisions.decide_workflow
decide-Reach x now id actor reason status d s fits =
    let r = Gates.resolve_approval id status reason s in
    let here : Reach s s = Reach.here in
    let k : Reach s r.0 = once (Step.decide_approval id status reason fits) in
    elim (Option-cases r.1) [
      | inl e ↦ ground (arith, e, here, k)
      | inr (info, e) ↦
          let a = Decisions.approval_row now id actor reason d info in
          ground (arith, e, here, Reach-trans k (append-Reach x.audit a r.0))
    ]

submit-Reach :
    (x : DecisionFaults) (now id actor : ℕ) (answer : Option ℕ) (s : Store)
    → Reach s (Decisions.submit_input x now id actor answer s).0
unfolding Decisions.submit_input
submit-Reach x now id actor answer s =
    let r = Gates.resolve_input id answer s in
    let here : Reach s s = Reach.here in
    let k : Reach s r.0 = once (Step.answer id answer) in
    elim (Option-cases r.1) [
      | inl e ↦ ground (arith, e, here, k)
      | inr (info, e) ↦
          let a = Decisions.input_row now id actor InputDecision.answered answer info in
          ground (arith, e, here, Reach-trans k (append-Reach x.audit a r.0))
    ]

timeout-Reach :
    (x : DecisionFaults) (now p : ℕ) (s : Store)
    → Reach s (Decisions.sweep_approvals x now p s) × Reach s (Decisions.sweep_inputs x now p s)
unfolding Decisions.sweep_approvals Decisions.sweep_inputs
timeout-Reach x now p s =
    let here : Reach s s = Reach.here in
    let t = (Gates.sweep_expired_approvals now p s).0 in
    let u = (Gates.sweep_expired_inputs now p s).0 in
    let k : Reach s t = once (Step.expire_approval now p) in
    let l : Reach s u = once (Step.expire_input now p) in
    elim (Option-cases s.job) [
      | inl e ↦ (ground (arith, e, here), ground (arith, e, here))
      | inr (j, e) ↦ (
        ground (
          arith,
          e,
          here,
          k,
          Reach-trans k (append-Reach x.audit (Decisions.approval_timeout j) t),
        ),
        ground
            (arith, e, here, l, Reach-trans l (append-Reach x.audit (Decisions.input_timeout j) u)),
      )
    ]

configure-Reach :
    (fault : Bool) (least : ℕ) (c : WorkflowConfig) (version : ℕ) (s : Store)
    → Reach s (Service.set_workflow_config fault least c version s).0
unfolding Service.set_workflow_config
configure-Reach fault least c version s =
    let here : Reach s s = Reach.here in
    ground (arith, here, once {s = s} (Step.configure c version))

activate-Reach :
    (fault : Bool) (id : ℕ) (s : Store)
    → Reach s (Service.activate_workflow fault id s).0
      × Reach s (Service.resolve_interrupted fault id s).0
unfolding Service.activate_workflow Service.resolve_interrupted
activate-Reach fault id s =
    let here : Reach s s = Reach.here in
    (
      ground (arith, here, once {s = s} (Step.activate id)),
      ground (arith, here, once {s = s} (Step.acknowledge id)),
    )

-- AbandonQueuedRequests, SetWorkflowLifecyclePolicy and the calls on an agent's policies are one
-- statement each.
statement-Reach : {s t : Store} (fault : Bool) → Step s t → Reach s (if fault then s else t)
statement-Reach fault step = either-Reach fault Reach.here (once step)

-- One call of the service on a workflow that is there, or one sweep of the gates' timeouts, with what of it fails. The workflow that
-- a call has read may be out of date.
pub data Called (s : Store) : Store → Type 0 where
  invoked :
      (x : InvokeFaults) (now : ℕ) (i : Invocation) (w : Workflow)
      → Called s (Service.invoke_workflow x now i w s).0
  repeated :
      (x : InvokeFaults) (now : ℕ) (i : Invocation) (w : Workflow)
      → Called s (Service.create_periodic_request x now i w s).0
  configured :
      (fault : Bool) (least : ℕ) (c : WorkflowConfig) (version : ℕ)
      → Called s (Service.set_workflow_config fault least c version s).0
  suspended :
      (x : HoldFaults) (now id reason : ℕ) (stop : Bool)
      → Called s (Service.suspend_workflow x now id reason stop s).0
  resumed :
      (read write : Bool) (f : Floats) (now id : ℕ) (w : Workflow)
      → Called s (Resume.resume_workflow read write f now id w s).0
  deleted : (x : HoldFaults) (now : ℕ) → Called s (Service.delete_workflow x now s).0
  activated : (fault : Bool) (id : ℕ) → Called s (Service.activate_workflow fault id s).0
  acknowledged : (fault : Bool) (id : ℕ) → Called s (Service.resolve_interrupted fault id s).0
  approved :
      (x : DecisionFaults) (now id actor reason : ℕ)
      → Called s (Decisions.approve_workflow x now id actor reason s).0
  rejected :
      (x : DecisionFaults) (now id actor reason : ℕ)
      → Called s (Decisions.reject_workflow x now id actor reason s).0
  answered :
      (x : DecisionFaults) (now id actor : ℕ) (answer : Option ℕ)
      → Called s (Decisions.submit_input x now id actor answer s).0
  queue_dropped :
      (fault : Bool) (ids : Option (List ℕ))
      → Called s (if fault then s else (Requests.abandon_queued_requests ids s).0)
  policy_set :
      (fault : Bool) (p : Policy)
      → Called s (if fault then s else Lifecycle.update_lifecycle_policy p s)
  agent_runtime_set :
      (fault : Bool) (agent policy : ℕ)
      → Called s (if fault then s else StoredAgents.upsert_runtime_policy agent policy s)
  agent_lifecycle_set :
      (fault : Bool) (agent policy : ℕ)
      → Called s (if fault then s else StoredAgents.upsert_lifecycle_policy agent policy s)
  agent_deleted :
      (fault : Bool) (agent : ℕ) → Called s (if fault then s else StoredAgents.delete_agent agent s)
  approvals_timed_out :
      (x : DecisionFaults) (now p : ℕ) → Called s (Decisions.sweep_approvals x now p s)
  inputs_timed_out : (x : DecisionFaults) (now p : ℕ) → Called s (Decisions.sweep_inputs x now p s)

pub called-Reach : {s t : Store} → Called s t → Reach s t
unfolding Decisions.approve_workflow Decisions.reject_workflow Service.create_periodic_request
    StoredAgents.upsert_runtime_policy StoredAgents.upsert_lifecycle_policy
    StoredAgents.delete_agent
called-Reach {s} (Called.invoked x now i w) = invoke-Reach x now i w s
called-Reach {s} (Called.repeated x now i w) =
    periodic-Reach x now i w.config.repeat_every_seconds (Service.resolve_runtime_params 0 w false)
      s
called-Reach {s} (Called.configured fault least c v) = configure-Reach fault least c v s
called-Reach {s} (Called.suspended x now id reason stop) = suspend-Reach x now id reason stop s
called-Reach {s} (Called.resumed r w f now id wf) = resume-Reach r w f now id wf s
called-Reach {s} (Called.deleted x now) = delete-Reach x now s
called-Reach {s} (Called.activated fault id) = (activate-Reach fault id s).0
called-Reach {s} (Called.acknowledged fault id) = (activate-Reach fault id s).1
called-Reach {s} (Called.approved x now id actor reason) =
    decide-Reach x now id actor reason JobStatus.approved ApprovalDecision.approved s refl
called-Reach {s} (Called.rejected x now id actor reason) =
    decide-Reach x now id actor reason JobStatus.rejected ApprovalDecision.rejected s refl
called-Reach {s} (Called.answered x now id actor answer) = submit-Reach x now id actor answer s
called-Reach {s} (Called.queue_dropped fault ids) = statement-Reach fault (Step.drop_queued ids)
called-Reach {s} (Called.policy_set fault p) = statement-Reach fault (Step.set_policy p)
called-Reach {s} (Called.agent_runtime_set fault agent policy) =
    statement-Reach fault (Step.set_agents _)
called-Reach {s} (Called.agent_lifecycle_set fault agent policy) =
    statement-Reach fault (Step.set_agents _)
called-Reach {s} (Called.agent_deleted fault agent) = statement-Reach fault (Step.set_agents _)
called-Reach {s} (Called.approvals_timed_out x now p) = (timeout-Reach x now p s).0
called-Reach {s} (Called.inputs_timed_out x now p) = (timeout-Reach x now p s).1
