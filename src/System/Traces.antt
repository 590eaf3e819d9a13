-- ===== src/System/Traces.antt =====
-- internal/scheduler/lifecycleresolver.go and internal/storage/postgres: the statements in any order, a
-- resolution by what its process had read. ResolveLifecyclePolicy reads the workflow first and writes
-- later: where no rule fired it writes the state that it read, suspended too.
use boundflow.Base.{ℕ, ◌≡◌, Bool, true, false, Option, arith}
use boundflow.Domain.Status.{WorkflowState, is_suspended}
use boundflow.Store.{Store}
use boundflow.Store.Resolution
use boundflow.System.{Step, Reach, may_resolve}
use boundflow.System.Runs.{Reach-trans}
use boundflow.System.Invariant.{Inv}
use boundflow.System.History.{history-Inv}
use boundflow.System.Monotone.{history-IsPast}

abbrev pub is_state_resolution : {s t : Store} → Step s t → Bool
is_state_resolution (Step.resolve_state resolved state until id le free) = true
is_state_resolution step = false

-- A history whose state resolutions come from readings. `resolved` is one that read the workflow at an
-- earlier moment `t`, and since then anything has happened: it writes the version that it read, and
-- it writes suspended only where it read suspended.
pub data Trace : Store → Store → Type 0 where
  here : {s : Store} → Trace s s
  next :
      {s t u : Store} → Trace s t → (step : Step t u) → is_state_resolution step ≡ false → Trace s u
  resolved :
      {s t u : Store}
      → Trace s t
      → Trace t u
      → (state : WorkflowState) (until : Option ℕ) (id : ℕ)
      → (is_suspended state ≡ true → is_suspended t.workflow.workflow_state ≡ true)
      → Trace s
          (Resolution.try_apply_state_resolution t.workflow.current_version state until id u).0

-- A suspended row refuses every resolution.
suspended-refuses :
    (v : ℕ) (s : Store)
    → is_suspended s.workflow.workflow_state ≡ true
    → may_resolve v s.workflow ≡ false
suspended-refuses v s e = ground (arith, e)

-- What was read as suspended is refused when it is written: the row is still suspended or disabled, or
-- it was resumed or acknowledged, which caught up the version that was last resolved.
Trace-Reach : {s t : Store} → Inv s → Trace s t → Reach s t
Trace-Reach h Trace.here = Reach.here
Trace-Reach h (Trace.next trace step plain) = Reach.next (Trace-Reach h trace) step
Trace-Reach h (Trace.resolved {s} {t} {u} before since state until id read) =
    let k = Trace-Reach h before in
    let i = history-Inv h k in
    let l = Trace-Reach i since in
    let past = history-IsPast i l in
    Reach.next (Reach-trans k l) (
      Step.resolve_state t.workflow.current_version state until id past.current (λ e.
        past.refused t.workflow.current_version (omega arith)
          (suspended-refuses t.workflow.current_version t (read e))))

-- Whatever statements the server, the schedulers and the worker sessions run, in whatever order, on
-- the rows of a workflow, a state resolution with the version and the state that its process read at
-- any earlier moment, the rows stay consistent: the version that was last resolved and the one whose
-- metrics were last emitted are at most the current version, the current version is at most the last
-- one allocated, so are the versions of every request and of the job, a workflow is in the state
-- suspended and a request is paused only while a suspension was requested, and the attempts of a job
-- are at most the limit of the scheduler. The other versions that statements carry were read or
-- allocated before, so they are at most the present ones.
pub Trace-Inv : {s t : Store} → Inv s → Trace s t → Inv t
Trace-Inv h trace = history-Inv h (Trace-Reach h trace)
