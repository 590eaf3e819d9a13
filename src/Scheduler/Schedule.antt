-- ===== src/Scheduler/Schedule.antt =====
-- internal/scheduler/scheduler.go: what ScheduleRequest does with a reading of the workflow that others
-- may have overtaken, and with the requests that it leaves behind.
use boundflow.Base.{
  ℕ, ◌<◌, ◌≡◌, ◌≢◌, refl, ◌⊎◌, inl, inr, true, false, some, Bool, List, [], ◌∷◌, All, arith,
  Option-cases, Bool-cases, ◌==◌, ◌&&◌, ◌||◌, not, ltb, map, keep, ap, if◌then◌else◌,
}
use boundflow.Domain.Status.{
  InvokeMode, JobStatus, RequestStatus, is_unscheduled, is_queue, is_supercedable,
}
use boundflow.Domain.Rows.{Workflow, Job, Request}
use boundflow.Store.{Store}
use boundflow.Store.Requests.{find_request}
use boundflow.Store.Scheduling.{
  Plan, upsert_job_and_schedule, supercede_older_requests, mark_workflow, replaced_job,
}
use boundflow.Scheduler.{
  Assembly, plan_for, validate_workflow_state, ScheduleFaults, after_scheduling, upsert_and_follow,
  schedule_request, effective_mode, done,
}

-- ScheduleRequest writes nothing where the workflow it read is not active or waits for its last run to be
-- resolved, and nothing where a run was applied to the workflow since it was read.
pub stale_schedule :
    (x : ScheduleFaults) (now id : ℕ) (a : Assembly) (w : Workflow) (s : Store)
    → (validate_workflow_state w ≡ false) ⊎ (s.workflow.current_version ≢ w.current_version)
    → (schedule_request x now id a w s).0 ≡ s
unfolding schedule_request upsert_and_follow after_scheduling upsert_job_and_schedule
stale_schedule x now id a w s h = elim (Option-cases (find_request id s.requests)) [
  | inl e ↦ ground (arith, e, h)
  | inr (r, e) ↦ ground (arith, e, h)
]

-- No request older than the version is left to be taken or to be worked on.
abbrev pub IsSettled : ℕ → Request → Type 0
IsSettled v r = r.version < v → is_supercedable r.status ≡ false

supercede-IsSettled :
    (v : ℕ) (s : Store) → All (IsSettled v) (supercede_older_requests v s).requests
unfolding supercede_older_requests
supercede-IsSettled v s = go s.requests
  where
    go :
        (rs : List Request)
        → All (IsSettled v) (
            map
              (λ r.
                if is_supercedable r.status && ltb r.version v
                then record r { status = RequestStatus.superceded }
                else r)
              rs)
    go [] = tt
    go (r ∷ rs) = ((λ older. ground (arith, older)), go rs)

-- The calls up to UpsertJobAndSchedule go through.
abbrev pub writes : ScheduleFaults → Bool
writes x = not (x.get_request || x.get_workflow || x.agents || x.encode || x.no_timeout || x.upsert)

-- Where ScheduleRequest wrote a request of a workflow that does not queue and answers no error, no request with a lower
-- version is left unscheduled or scheduled.
pub coalesced :
    (x : ScheduleFaults) (now id : ℕ) (a : Assembly) (w : Workflow) (s : Store) (v : ℕ)
    → (schedule_request x now id a w s).1 ≡ done tt
    → validate_workflow_state w ≡ true
    → is_queue (effective_mode w.config.invoke_mode) ≡ false
    → (upsert_job_and_schedule now id (plan_for w a) s).1 ≡ some v
    → All (IsSettled v) (schedule_request x now id a w s).0.requests
unfolding schedule_request upsert_and_follow after_scheduling mark_workflow
coalesced x now id a w s v went valid mode wrote =
    ground (arith, supercede-IsSettled v (upsert_job_and_schedule now id (plan_for w a) s).0)

abbrev pub is_in_progress : Request → Bool
is_in_progress r = status_of r.status
  where
    status_of : RequestStatus → Bool
    status_of RequestStatus.in_progress = true
    status_of _ = false

abbrev pub in_progress : List Request → List Request
in_progress = keep is_in_progress

-- A change that neither touches nor makes a request in progress.
kept-in_progress :
    (f : Request → Request) (rs : List Request)
    → ((r : Request) → is_in_progress r ≡ true → f r ≡ r)
    → ((r : Request) → is_in_progress r ≡ false → is_in_progress (f r) ≡ false)
    → in_progress (map f rs) ≡ in_progress rs
kept-in_progress f [] same none_new = refl
kept-in_progress f (r ∷ rs) same none_new = elim (Bool-cases (is_in_progress r)) [
  | inl e ↦ rw (same r e, e) (ap (λ xs. r ∷ xs) (kept-in_progress f rs same none_new))
  | inr e ↦ rw (none_new r e, e) (kept-in_progress f rs same none_new)
]

upsert-in_progress :
    (now id : ℕ) (p : Plan) (s : Store)
    → in_progress (upsert_job_and_schedule now id p s).0.requests ≡ in_progress s.requests
unfolding upsert_job_and_schedule
upsert-in_progress now id p s = elim (Option-cases (find_request id s.requests)) [
  | inl e ↦ ground (arith, e)
  | inr (r, e) ↦ ground (
    arith,
    e,
    kept-in_progress
        (λ q.
          if q.id == r.id && is_unscheduled q.status
          then record q { status = RequestStatus.scheduled }
          else q)
        s.requests (λ q. ground arith) (λ q. ground arith),
  )
]

supercede-job : (v : ℕ) (s : Store) → (supercede_older_requests v s).job ≡ s.job
unfolding supercede_older_requests
supercede-job v s = refl

supercede-in_progress :
    (v : ℕ) (s : Store)
    → in_progress (supercede_older_requests v s).requests ≡ in_progress s.requests
unfolding supercede_older_requests
supercede-in_progress v s =
    kept-in_progress
      (λ r.
        if is_supercedable r.status && ltb r.version v
        then record r { status = RequestStatus.superceded }
        else r)
      s.requests (λ r. ground arith) (λ r. ground arith)

replacing :
    (now id : ℕ) (p : Plan) (s : Store) (j : Job) (r : Request)
    → is_queue p.invoke_mode ≡ false
    → s.workflow.current_version ≡ p.expected_current_version
    → find_request id s.requests ≡ some r
    → is_unscheduled r.status ≡ true
    → s.job ≡ some j
    → j.status ≡ JobStatus.pending
    → j.attempts ≡ 0
    → j.version < r.version
    → let (t, v) = upsert_job_and_schedule now id p s in
      (t.job ≡ some (replaced_job r p s.workflow j)) × (v ≡ some r.version)
unfolding upsert_job_and_schedule
replacing now id p s j r mode current found unscheduled job status attempts older = ground arith

after-in_progress :
    (x : ScheduleFaults) (mode : InvokeMode) (v : ℕ) (s : Store)
    → let t = (after_scheduling x mode (some v) s).0 in
      (t.job ≡ s.job) × (in_progress t.requests ≡ in_progress s.requests)
unfolding after_scheduling mark_workflow
after-in_progress x mode v s = ground (arith, supercede-in_progress v s, supercede-job v s)

-- A job that was given back as pending before its first attempt counted can lose its row to a newer
-- request of a workflow that does not queue, and the requests in progress, the one of that job among
-- them, stay in progress: ScheduleRequest, where its calls up to UpsertJobAndSchedule go through, moves
-- the row to the newer request and closes none of them.
pub displaced :
    (x : ScheduleFaults) (now id : ℕ) (a : Assembly) (w : Workflow) (s : Store) (j : Job)
    (r : Request)
    → writes x ≡ true
    → validate_workflow_state w ≡ true
    → is_queue (effective_mode w.config.invoke_mode) ≡ false
    → s.workflow.current_version ≡ w.current_version
    → find_request id s.requests ≡ some r
    → is_unscheduled r.status ≡ true
    → s.job ≡ some j
    → j.status ≡ JobStatus.pending
    → j.attempts ≡ 0
    → j.version < r.version
    → let t = (schedule_request x now id a w s).0 in
      (t.job ≡ some (replaced_job r (plan_for w a) s.workflow j))
      × (in_progress t.requests ≡ in_progress s.requests)
unfolding schedule_request upsert_and_follow
displaced x now id a w s j r runs valid mode current found unscheduled job status attempts older =
    let p = plan_for w a in
    let u = replacing now id p s j r mode current found unscheduled job status attempts older in
    let k = after-in_progress x p.invoke_mode r.version (upsert_job_and_schedule now id p s).0 in
    ground (arith, runs, valid, found, u.0, u.1, k.0, k.1, upsert-in_progress now id p s)
