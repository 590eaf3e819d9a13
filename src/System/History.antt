-- ===== src/System/History.antt =====
-- The statements of internal/storage/postgres in any order: the invariant along a history.
use boundflow.System.{Step, Reach}
use boundflow.System.Invariant.{Inv, session-Inv, gates-Inv, recovery-Inv, workflow-Inv, invoke-Inv}
use boundflow.System.Progress.{
  queue-Inv, sweep_in_progress-Inv, acquire-Inv, reconcile-Inv, config-Inv, upsert-Inv,
  complete-Inv, interrupt-Inv, suspend-Inv, abort-Inv, resume-Inv, resolution-Inv,
}
use boundflow.Store.{Store}

step-Inv : (s : Store) {t : Store} → Inv s → Step s t → Inv t
step-Inv s h (Step.session owner w usual) = session-Inv s owner w h
step-Inv s h (Step.acquire now owner lease tenant) = acquire-Inv s now owner lease tenant h
step-Inv s h (Step.decide_approval id status reason fits) = (gates-Inv s h).0 id status reason
step-Inv s h (Step.answer id a) = (gates-Inv s h).1 id a
step-Inv s h (Step.expire_approval now p) = (gates-Inv s h).2 now p
step-Inv s h (Step.expire_input now p) = (gates-Inv s h).3 now p
step-Inv s h (Step.sweep_abandoned now p) = (recovery-Inv s h).0 now p
step-Inv s h (Step.abandon now id) = (recovery-Inv s h).1 now id
step-Inv s h (Step.orphan now p grace) = (recovery-Inv s h).2 now p grace
step-Inv s h (Step.requeue id a below) = (recovery-Inv s h).3 id a below
step-Inv s h (Step.claim id a) = (recovery-Inv s h).4 id a
step-Inv s h (Step.delete_job id) = (recovery-Inv s h).5 id
step-Inv s h (Step.invoke now n) = (invoke-Inv s h).0 now n
step-Inv s h (Step.invoke_periodic now n gap) = (invoke-Inv s h).1 now n gap
step-Inv s h (Step.drop_queued ids) = (queue-Inv s h).0 ids
step-Inv s h (Step.close_completed now id o reason result) =
    (queue-Inv s h).1 now id o reason result
step-Inv s h (Step.close_failed now id reason) = (queue-Inv s h).2 now id reason
step-Inv s h (Step.upsert now id p) = upsert-Inv s now id p h
step-Inv s h (Step.supercede version) = (queue-Inv s h).3 version
step-Inv s h (Step.mark state) = (workflow-Inv s h).0 state
step-Inv s h Step.mark_awaiting_approval = (workflow-Inv s h).1
step-Inv s h Step.mark_awaiting_input = (workflow-Inv s h).2
step-Inv s h (Step.reconcile now p after) = reconcile-Inv s now p after h
step-Inv s h (Step.mark_in_progress id) = (queue-Inv s h).4 id
step-Inv s h (Step.sweep_in_progress p) = sweep_in_progress-Inv s p h
step-Inv s h (Step.configure c version) = (config-Inv s h).0 c version
step-Inv s h (Step.set_policy p) = (config-Inv s h).1 p
step-Inv s h (Step.request_deletion now) = (workflow-Inv s h).3 now
step-Inv s h (Step.finish_deletion now) = (workflow-Inv s h).4 now
step-Inv s h (Step.complete now state version le) = complete-Inv s now state version le h
step-Inv s h (Step.interrupt now id version le) = interrupt-Inv s now id version le h
step-Inv s h (Step.acknowledge id) = (workflow-Inv s h).5 id
step-Inv s h (Step.activate id) = (workflow-Inv s h).6 id
step-Inv s h (Step.warm_up now p) = (workflow-Inv s h).7 now p
step-Inv s h (Step.suspend now id reason stop) = suspend-Inv s now id reason stop h
step-Inv s h (Step.finalize now id) = (workflow-Inv s h).8 now id
step-Inv s h (Step.abort id) = abort-Inv s id h
step-Inv s h (Step.resume id t free) = resume-Inv s id t free h
step-Inv s h (Step.resolve_version r e t id le) = (resolution-Inv s h).0 r e t id le
step-Inv s h (Step.resolve_state r st u id le free) = (resolution-Inv s h).1 r st u id le free
step-Inv s h (Step.emit e le) = (resolution-Inv s h).2 e le
step-Inv s h (Step.set_agents a) = record {
  resolved = h.resolved;
  emitted = h.emitted;
  current = h.current;
  held = h.held;
  requests = h.requests;
  job = h.job;
}
step-Inv s h (Step.append_audit a) = record {
  resolved = h.resolved;
  emitted = h.emitted;
  current = h.current;
  held = h.held;
  requests = h.requests;
  job = h.job;
}

-- Along any history of steps, each with what System asks of it, the rows of a workflow stay consistent.
pub history-Inv : {s t : Store} → Inv s → Reach s t → Inv t
history-Inv h Reach.here = h
history-Inv h (Reach.next reach step) = step-Inv _ (history-Inv h reach) step
