-- ===== src/Service/Admission.antt =====
-- internal/service/lifecycle.go: the bound that InvokeWorkflow keeps on the queue of a workflow.
use boundflow.Base.{
  ℕ, ◌≤◌, ◌<◌, ◌+◌, ◌^◌, ◌≡◌, refl, inl, inr, Bool, true, false, ◌&&◌, ltb, Option, none, some,
  List, [], ◌∷◌, ◌++◌, map, count, arith, Option-cases, if◌then◌else◌,
}
use boundflow.Domain.Status.{
  LifecycleState, InvokeMode, is_active, is_queue, is_unscheduled, RequestStatus, is_supercedable,
}
use boundflow.Domain.Rows.{Workflow, Request}
use boundflow.Store.{Store}
use boundflow.Store.Requests
use boundflow.Store.Requests.{count_unscheduled_requests, find_request}
use boundflow.Store.Scheduling
use boundflow.Store.Scheduling.{Plan}
use boundflow.Scheduler
use boundflow.Scheduler.{Assembly, ScheduleFaults, get_workflow, schedule_request, plan_for}
use boundflow.Service
use boundflow.Service.{Reply, ok, refused, ServiceError, InvokeFaults, Invocation}

-- An update that makes no request unscheduled does not lengthen the queue.
update-count :
    (guard : Request → Bool) (change : Request → Request) (rs : List Request)
    → ((r : Request) → is_unscheduled (change r).status ≡ false)
    → count (λ r. is_unscheduled r.status) (map (λ r. if guard r then change r else r) rs)
      ≤ count (λ r. is_unscheduled r.status) rs
update-count guard change [] closes = omega arith
update-count guard change (r ∷ rest) closes =
    ground (arith, update-count guard change rest closes, closes r)

append-count :
    (rs : List Request) (r : Request)
    → count (λ q. is_unscheduled q.status) (rs ++ (r ∷ []))
      ≤ count (λ q. is_unscheduled q.status) rs + 1
append-count [] r = ground arith
append-count (q ∷ rest) r = ground (arith, append-count rest r)

upsert-count :
    (now id : ℕ) (p : Plan) (s : Store)
    → count_unscheduled_requests (Scheduling.upsert_job_and_schedule now id p s).0
      ≤ count_unscheduled_requests s
unfolding Scheduling.upsert_job_and_schedule count_unscheduled_requests
upsert-count now id p s = elim (Option-cases (find_request id s.requests)) [
  | inl e ↦ ground (arith, e)
  | inr (r, e) ↦
      ground (
        arith,
        e,
        update-count (Scheduling.is_slot r) Scheduling.as_scheduled s.requests (λ q. refl),
      )
]

supercede-count :
    (version : ℕ) (s : Store)
    → count_unscheduled_requests (Scheduling.supercede_older_requests version s)
      ≤ count_unscheduled_requests s
unfolding Scheduling.supercede_older_requests count_unscheduled_requests
supercede-count version s =
    update-count (λ r. is_supercedable r.status && ltb r.version version)
      (λ r. record r { status = RequestStatus.superceded }) s.requests (λ q. refl)

mark-count :
    (state : LifecycleState) (s : Store)
    → count_unscheduled_requests (Scheduling.mark_workflow state s) ≡ count_unscheduled_requests s
unfolding Scheduling.mark_workflow count_unscheduled_requests
mark-count state s = ground arith

after-count :
    (x : ScheduleFaults) (mode : InvokeMode) (v : Option ℕ) (s : Store)
    → count_unscheduled_requests (Scheduler.after_scheduling x mode v s).0
      ≤ count_unscheduled_requests s
unfolding Scheduler.after_scheduling
after-count x mode none s = omega arith
after-count x mode (some v) s = ground (
  arith,
  mark-count LifecycleState.scheduled s,
  mark-count LifecycleState.scheduled (Scheduling.supercede_older_requests v s),
  supercede-count v s,
)

schedule-count :
    (x : ScheduleFaults) (now id : ℕ) (a : Assembly) (w : Workflow) (s : Store)
    → count_unscheduled_requests (schedule_request x now id a w s).0 ≤ count_unscheduled_requests s
unfolding schedule_request Scheduler.upsert_and_follow
schedule-count x now id a w s =
    let p = plan_for w a in
    let r = Scheduling.upsert_job_and_schedule now id p s in
    ground (arith, upsert-count now id p s, after-count x p.invoke_mode r.1 r.0)

try_schedule-count :
    (x : ScheduleFaults) (now id : ℕ) (a : Assembly) (s : Store)
    → count_unscheduled_requests (Service.try_schedule x now id a s) ≤ count_unscheduled_requests s
unfolding Service.try_schedule
try_schedule-count x now id a s = ground (arith, schedule-count x now id a (get_workflow s) s)

create-count :
    (now : ℕ) (n : Requests.NewRequest) (s : Store)
    → count_unscheduled_requests (Requests.create_invocation_request now n s).0
      ≤ count_unscheduled_requests s + 1
unfolding Requests.create_invocation_request count_unscheduled_requests
create-count now n s =
    ground (arith, append-count s.requests (Requests.new_request now n (Requests.next_version s)))

valid-count :
    (x : InvokeFaults) (now : ℕ) (i : Invocation) (params : Reply ℕ) (s : Store)
    → count_unscheduled_requests (Service.create_if_valid x now i params s).0
      ≤ count_unscheduled_requests s + 1
unfolding Service.create_if_valid Service.create_and_schedule
valid-count x now i (refused e) s = omega arith
valid-count x now i (ok timeout) s =
    let n = Service.request_of i timeout in
    let r = Requests.create_invocation_request now n s in
    ground
      (arith, create-count now n s, try_schedule-count x.schedule now i.id (i.assembly timeout) r.0)

-- InvokeWorkflow, on a reading of the workflow that queues its requests and whatever of it fails, with fewer
-- than 2^31 requests waiting: if the queue was within the cap before, it is after; and if it was at the cap
-- of an active workflow whose reads go through, the call is refused as full and nothing has changed.
pub invoke-count :
    (x : InvokeFaults) (now : ℕ) (i : Invocation) (w : Workflow) (s : Store)
    → is_queue w.config.invoke_mode ≡ true
    → count_unscheduled_requests s < 2 ^ 31
    → let r = Service.invoke_workflow x now i w s in
      (count_unscheduled_requests s ≤ Service.depth_cap w.config
        → count_unscheduled_requests r.0 ≤ Service.depth_cap w.config)
      × (Service.depth_cap w.config ≤ count_unscheduled_requests s
          → is_active w.workflow_state ≡ true
          → x.reads ≡ false
          → r ≡ (s, refused ServiceError.queue_full))
unfolding Service.invoke_workflow Service.is_full
invoke-count x now i w s queues few =
    let v = valid-count x now i (Service.resolve_runtime_params i.timeout_seconds w true) s in
    (
      (λ le. ground (arith, queues, few, v, le)),
      (λ full active reads. ground (arith, queues, few, full, active, reads)),
    )
