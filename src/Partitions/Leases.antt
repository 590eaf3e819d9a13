-- ===== src/Partitions/Leases.antt =====
-- internal/storage/postgres/scheduler_partition.go: one scheduler works on a partition at a time.
use boundflow.Base.{ℕ, ◌≤◌, ◌≡◌, ◌≢◌, refl, some, arith}
use boundflow.Partitions.{Partition, acquire_available, renew, release}

-- Statements of schedulers other than `a`, at times up to the last one, each with its own clock reading.
pub data Others (a last : ℕ) (p : Partition) : Partition → Type 0 where
  nobody : Others a last p p
  acquired :
      {q : Partition} (now owner lease : ℕ)
      → Others a last p q
      → owner ≢ a
      → now ≤ last
      → Others a last p (acquire_available now owner lease q).0
  renewed :
      {q : Partition} (now owner lease : ℕ)
      → Others a last p q
      → owner ≢ a
      → now ≤ last
      → Others a last p (renew now owner lease q).0
  released :
      {q : Partition} (owner : ℕ)
      → Others a last p q
      → owner ≢ a
      → Others a last p (release owner q)

-- As long as the lease of a scheduler on a partition has not run out, no acquisition, renewal and
-- release of the other schedulers, in any number and order, changes the row.
pub others_excluded :
    {a until : ℕ} {p q : Partition}
    → p.owner ≡ some a
    → p.lease_until ≡ some until
    → Others a until p q
    → q ≡ p
unfolding acquire_available renew release
others_excluded owned lasts Others.nobody = refl
others_excluded {p = p} owned lasts (Others.acquired {q} now owner lease run other up) =
    ground (arith, others_excluded owned lasts run, owned, lasts, other, up)
others_excluded {p = p} owned lasts (Others.renewed {q} now owner lease run other up) =
    ground (arith, others_excluded owned lasts run, owned, lasts, other, up)
others_excluded {p = p} owned lasts (Others.released {q} owner run other) =
    ground (arith, others_excluded owned lasts run, owned, lasts, other)
