-- ===== src/Tests/Races.antt =====
-- Tests of the statements that race for a job.
use boundflow.Base.{refl, some, arith}
use boundflow.Domain.Status.{JobStatus}
use boundflow.Store.{Store}
use boundflow.Store.Jobs
use boundflow.Store.Gates
use boundflow.Store.Recovery
use boundflow.Store.Scheduling
use boundflow.Store.Once.{IsSettled, Closed, gate_once}
use boundflow.System.{Step}
use boundflow.System.Fencing.{handover, IsTakeover}
use boundflow.Samples.{job_in, store_in, store_with, plan}

abbrev fresh : Store
fresh = store_with (some (record (job_in JobStatus.pending) { attempts = 0 }))

abbrev replaced : Store
replaced = (Scheduling.upsert_job_and_schedule 65 13 plan fresh).0

abbrev taken : Store
taken = (Jobs.acquire_job 120 22 30 5 fresh).0

handover_example :
    IsTakeover {s = fresh} {t = (Jobs.acquire_job 120 22 30 5 fresh).0}
      (Step.acquire 120 22 30 5)
      (record (job_in JobStatus.pending) { attempts = 0 })
unfolding Jobs.acquire_job
handover_example =
    handover fresh (Step.acquire 120 22 30 5) (record (job_in JobStatus.pending) { attempts = 0 })
      21 22 (refl, refl, refl, (λ e. omega (arith, e)))

abbrev waiting : Store
waiting = store_in JobStatus.awaiting_approval

gate_once_example : IsSettled (Gates.resolve_approval 70 JobStatus.approved 3 waiting).0
unfolding Gates.resolve_approval
gate_once_example =
    gate_once {s = waiting} (Closed.decided 70 JobStatus.approved 3 refl refl (λ e. cc))

abbrev requeued : Store
requeued = (Recovery.requeue_job 12 1 (store_in JobStatus.failed)).0
