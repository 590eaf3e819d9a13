-- ===== src/Base/Maps.antt =====
-- Go maps and JSON objects keyed by opaque names: association lists with one entry for a key.
use Prim.Native.Nat.{ℕ}
use mathlib.Core.Path.{◌≡◌, refl}
use mathlib.Core.Bool.{Bool, true}
use mathlib.Core.Option.{Option, none, some}
use mathlib.Core.List.{List, [], ◌∷◌}
use native.Mathlib.Omega.{arith}
use boundflow.Base.Bools.{◌==◌, if◌then◌else◌}

abbrev pub Map {ℓ} : Type ℓ → Type ℓ
Map V = List (ℕ × V)

module _ {ℓ} {V : Type ℓ} where
  -- `v, ok := m[k]`.
  unfoldable pub lookup : ℕ → Map V → Option V
  lookup key [] = none
  lookup key (entry ∷ rest) = if entry.0 == key then some (entry.1) else lookup key rest

  -- `m[k] = v`: an entry in place of the old one, or behind all others.
  unfoldable pub insert : ℕ → V → Map V → Map V
  insert key new [] = (key, new) ∷ []
  insert key new (entry ∷ rest) =
      let behind = insert key new rest in
      if entry.0 == key then (key, new) ∷ rest else entry ∷ behind

  pub lookup-insert :
      (key asked : ℕ) (new : V) (m : Map V)
      → lookup asked (insert key new m) ≡ (if key == asked then some new else lookup asked m)
  unfolding lookup insert
  lookup-insert key asked new [] = refl
  lookup-insert key asked new (entry ∷ rest) = ground (arith, lookup-insert key asked new rest)

  -- The keys of a table are distinct.
  abbrev pub IsKeyed : Map V → Type ℓ
  IsKeyed [] = Unit
  IsKeyed (entry ∷ rest) = (lookup (entry.0) rest ≡ none) × IsKeyed rest

  -- The rows whose value passes a test.
  unfoldable pub keep_values : (V → Bool) → Map V → Map V
  keep_values p [] = []
  keep_values p (entry ∷ rest) =
      let behind = keep_values p rest in if p (entry.1) then entry ∷ behind else behind

  -- The value, where it passes the test.
  abbrev pub if_passes : (V → Bool) → Option V → Option V
  if_passes p none = none
  if_passes p (some v) = if p v then some v else none

  pub lookup-keep_values :
      (p : V → Bool) (key : ℕ) (m : Map V)
      → IsKeyed m
      → lookup key (keep_values p m) ≡ if_passes p (lookup key m)
  unfolding lookup keep_values
  lookup-keep_values p key [] keyed = refl
  lookup-keep_values p key (entry ∷ rest) keyed =
      ground (arith, keyed.0, lookup-keep_values p key rest keyed.1)

  -- A row that passes before and after it is replaced is replaced among those that pass.
  pub keep_values-insert :
      (p : V → Bool) (key : ℕ) (old new : V) (m : Map V)
      → lookup key m ≡ some old
      → p old ≡ true
      → p new ≡ true
      → keep_values p (insert key new m) ≡ insert key new (keep_values p m)
  unfolding lookup insert keep_values
  keep_values-insert p key old new [] found was is = ground (arith, found)
  keep_values-insert p key old new (entry ∷ rest) found was is =
      ground (arith, found, keep_values-insert p key old new rest)
