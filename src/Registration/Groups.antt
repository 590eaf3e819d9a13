-- ===== src/Registration/Groups.antt =====
-- internal/server/handlers/registration.go: DeleteTenantGroup against the keys of the group.
use boundflow.Base.{
  ℕ, ◌≡◌, ◌≢◌, refl, inl, inr, true, false, List, any, ◌==◌, arith, none, Option-cases,
}
use boundflow.Auth.{ApiKey}
use boundflow.Auth.Access.{Opens}
use boundflow.Registration
use boundflow.Registration.{Tables, Env, Answer, unless_refused, check_own_group}

-- A key that opens refers to its group.
Opens-any :
    {hashed caller : ℕ} {keys : List ApiKey}
    → Opens hashed caller keys
    → any (λ k. k.tenant_group_id == caller) keys ≡ true
Opens-any (Opens.here same own live) = ground (arith, own)
Opens-any (Opens.there rest) = ground (arith, Opens-any rest)

row-stays :
    (caller : ℕ) (t : Tables)
    → any (λ g. g == caller) t.groups ≡ true
    → any (λ k. k.tenant_group_id == caller) t.keys ≡ true
    → Registration.delete_group_row caller t ≡ (t, false)
unfolding Registration.delete_group_row
row-stays caller t there keyed = rw there (rw keyed refl)

own-checked : (caller id : ℕ) → check_own_group caller id ≡ none → id ≡ caller
unfolding check_own_group
own-checked caller id passed = ground arith

-- Whoever has a key that opens cannot delete a tenant group by DeleteTenantGroup: another group is
-- refused as not found, and of their own, which is stored, the key itself keeps the row, so that the
-- call changes nothing and never answers that it is done.
pub own_group-stays :
    (x : Env) (hashed caller id : ℕ) (t : Tables)
    → Opens hashed caller t.keys
    → any (λ g. g == caller) t.groups ≡ true
    → ((Registration.delete_tenant_group x caller id t).0 ≡ t)
      × ((Registration.delete_tenant_group x caller id t).1 ≢ Answer.done)
unfolding Registration.delete_tenant_group
own_group-stays x hashed caller id t key there = elim (Option-cases (check_own_group caller id)) [
  | inr (status, e) ↦ rw e (refl, λ h. cc)
  | inl e ↦
      rw e (
        rw (own-checked caller id e) (rw (row-stays caller t there (Opens-any key)) (ground arith)))
]
