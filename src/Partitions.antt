-- ===== src/Partitions.antt =====
-- internal/storage/postgres/scheduler_partition.go: the lease of a scheduler on one partition. The
-- empty owner is 0, which no scheduler has as its id.
pub mod Leases
use boundflow.Base.{
  ℕ, ◌+◌, Bool, true, false, ◌&&◌, ◌||◌, Option, none, some, ◌==◌, before, if◌then◌else◌,
}

-- A row of scheduler_partitions: an owner that is NULL or empty is none.
pub record Partition : Type 0 where
  pub owner : Option ℕ
  pub lease_until : Option ℕ

-- `owner IS NULL OR owner = '' OR lease_until < now()`.
abbrev pub is_available : ℕ → Partition → Bool
is_available now p = elim p.owner [ none ↦ true | some o ↦ before p.lease_until now ]

abbrev pub leased : ℕ → ℕ → ℕ → Partition
leased now owner lease = record { owner = some owner; lease_until = some (now + lease) }

-- AcquireAvailable, on a partition that it may choose.
unfoldable pub acquire_available : ℕ → ℕ → ℕ → Partition → Partition × Bool
acquire_available now owner lease p =
    if is_available now p then (leased now owner lease, true) else (p, false)

abbrev pub is_owner : ℕ → Partition → Bool
is_owner owner p = elim p.owner [ none ↦ false | some o ↦ o == owner ]

-- Renew: it also takes a partition that is free.
unfoldable pub renew : ℕ → ℕ → ℕ → Partition → Partition × Bool
renew now owner lease p =
    if is_owner owner p || is_available now p then (leased now owner lease, true) else (p, false)

-- Release.
unfoldable pub release : ℕ → Partition → Partition
release owner p = if is_owner owner p then record { owner = none; lease_until = none } else p
