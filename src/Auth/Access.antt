-- ===== src/Auth/Access.antt =====
-- internal/auth and internal/storage/postgres/api_key.go: what a key opens from its making to its
-- revocation.
use boundflow.Base.{
  ℕ, ◌≡◌, refl, inl, inr, Bool, true, false, ◌&&◌, Option, none, some, List, [], ◌∷◌, map, ◌==◌,
  arith, any, subst, is_none, if◌then◌else◌, Bool-cases, lookup,
}
use boundflow.Api.{World, Env, Text}
use boundflow.Api.Calls.{Call, Library}
use boundflow.Api.Isolation.{owner_of, serve_isolated}
use boundflow.Auth
use boundflow.Auth.{ApiKey, Header, Identity, group, unknown}

-- A stored key that still opens: the row of the hash that is not revoked.
pub data Opens (hashed caller : ℕ) : List ApiKey → Type 0 where
  here :
      {k : ApiKey} {rest : List ApiKey}
      → k.key_hash ≡ hashed
      → k.tenant_group_id ≡ caller
      → k.revoked_at ≡ none
      → Opens hashed caller (k ∷ rest)
  there :
      {k : ApiKey} {rest : List ApiKey} → Opens hashed caller rest → Opens hashed caller (k ∷ rest)

found-Opens :
    (hashed : ℕ) (keys : List ApiKey) (k : ApiKey)
    → Auth.get_by_key_hash hashed keys ≡ some k
    → Opens hashed k.tenant_group_id keys
unfolding Auth.get_by_key_hash
found-Opens hashed [] k e = cc
found-Opens hashed (j ∷ rest) k e =
    elim (Bool-cases (j.key_hash == hashed && is_none j.revoked_at)) [
      | inl fits ↦
          Opens.here (ground (arith, fits)) (ground (arith, fits, e)) (ground (arith, fits))
      | inr other ↦ Opens.there (found-Opens hashed rest k (ground (arith, other, e)))
    ]

identity-Opens :
    (hashed caller : ℕ) (keys : List ApiKey) (found : Option ApiKey)
    → Auth.get_by_key_hash hashed keys ≡ found
    → Auth.identity_of found ≡ group caller
    → Opens hashed caller keys
identity-Opens hashed caller keys none e is = cc
identity-Opens hashed caller keys (some k) e is =
    subst (λ g. Opens hashed g keys) (cc) (found-Opens hashed keys k e)

-- The first value of a header.
abbrev pub Presents : Header → ℕ → Type 0
Presents none v = ⊥
Presents (some []) v = ⊥
Presents (some (key ∷ others)) v = key ≡ v

-- A group comes out of a header only by a key of that group that still opens.
resolved-Opens :
    (hash : ℕ → ℕ) (fault : Bool) (header : Header) (keys : List ApiKey) (caller : ℕ)
    → Auth.resolve hash fault header keys ≡ group caller
    → (v : ℕ) × Presents header v × Opens (hash v) caller keys
unfolding Auth.resolve
resolved-Opens hash fault none keys caller e = cc
resolved-Opens hash fault (some []) keys caller e = cc
resolved-Opens hash true (some (v ∷ others)) keys caller e = ground arith
resolved-Opens hash false (some (v ∷ others)) keys caller e = (
  v,
  refl,
  identity-Opens (hash v) caller keys (Auth.get_by_key_hash (hash v) keys) refl (ground arith),
)

answer-isolated :
    (l : Library) (x : Env) (c : Call) (seen w : World) (i : Identity) (k : ℕ)
    → ((caller : ℕ) → i ≡ group caller → owner_of k seen ≡ some caller → ⊥)
    → lookup k (Auth.answer_to l x c seen w i).0.workflows ≡ lookup k w.workflows
answer-isolated l x c seen w (unknown status) k foreign = refl
answer-isolated l x c seen w (group caller) k foreign =
    serve_isolated l x caller c seen w k (foreign caller refl)

-- A request leaves alone every workflow for whose tenant group the first value of its header is not a
-- key that is stored and not revoked; whatever the call, the repository's failures and the workflows.
pub request_isolated :
    (hash : ℕ → ℕ) (fault : Bool) (header : Header) (keys : List ApiKey) (l : Library) (x : Env)
    (c : Call) (seen w : World) (k : ℕ)
    → ((v caller : ℕ)
        → Presents header v
        → owner_of k seen ≡ some caller
        → Opens (hash v) caller keys
        → ⊥)
    → lookup k (Auth.intercept hash fault header keys l x c seen w).0.workflows
      ≡ lookup k w.workflows
unfolding Auth.intercept
request_isolated hash fault header keys l x c seen w k shut =
    answer-isolated l x c seen w (Auth.resolve hash fault header keys) k (λ caller e own.
      let r = resolved-Opens hash fault header keys caller e in shut r.0 caller r.1 own r.2)

-- A row that clashes with none is the only one of its hash, and its revocation touches no other.
unclashed-lookup :
    (new : ApiKey) (keys : List ApiKey)
    → any (Auth.clashes new) keys ≡ false
    → Auth.get_by_key_hash new.key_hash keys ≡ none
unfolding Auth.get_by_key_hash
unclashed-lookup new [] e = refl
unclashed-lookup new (k ∷ rest) e = ground (arith, e, unclashed-lookup new rest)

unclashed-map :
    (later : ℕ) (new : ApiKey) (keys : List ApiKey)
    → any (Auth.clashes new) keys ≡ false
    → map (Auth.revoked later new.id) keys ≡ keys
unclashed-map later new [] e = refl
unclashed-map later new (k ∷ rest) e = ground (arith, e, unclashed-map later new rest)

new_key : (ℕ → ℕ) → ℕ → ℕ → ℕ → ℕ → ApiKey
new_key hash now id caller raw = record {
  id = id;
  key_hash = hash raw;
  tenant_group_id = caller;
  created_at = now;
  revoked_at = none;
}

created :
    (new : ApiKey) (keys : List ApiKey) (raw : ℕ)
    → (if (Auth.create_key new keys).1 then some raw else none) ≡ some raw
    → any (Auth.clashes new) keys ≡ false
unfolding Auth.create_key
created new keys raw stored = ground arith

created-row :
    (new : ApiKey) (keys : List ApiKey)
    → any (Auth.clashes new) keys ≡ false
    → (Auth.create_key new keys).0 ≡ new ∷ keys
unfolding Auth.create_key
created-row new keys fresh = ground arith

module _ (hash : ℕ → ℕ) (later : ℕ) (new : ApiKey) (keys : List ApiKey) (others : List ℕ)
    (open_key : new.revoked_at ≡ none) where
  made-resolve :
      (raw : ℕ)
      → new.key_hash ≡ hash raw
      → (raw == 0) ≡ false
      → Auth.resolve hash false (some (raw ∷ others)) (new ∷ keys) ≡ group new.tenant_group_id
  unfolding Auth.resolve Auth.get_by_key_hash
  made-resolve raw of real = ground (arith, open_key)

  ended-resolve :
      (raw : ℕ)
      → new.key_hash ≡ hash raw
      → (raw == 0) ≡ false
      → any (Auth.clashes new) keys ≡ false
      → Auth.resolve hash false (some (raw ∷ others)) (map (Auth.revoked later new.id) (new ∷ keys))
        ≡ unknown (Auth.unauthenticated Text.invalid_key)
  unfolding Auth.resolve Auth.get_by_key_hash
  ended-resolve raw of real fresh =
      let absent =
        subst (λ h. Auth.get_by_key_hash h keys ≡ none) of (unclashed-lookup new keys fresh) in
      rw (unclashed-map later new keys fresh) (ground (arith, open_key, real, absent))

  other-resolve :
      (other : ℕ)
      → (hash other == new.key_hash) ≡ false
      → any (Auth.clashes new) keys ≡ false
      → Auth.resolve hash false
          (some (other ∷ others))
          (map (Auth.revoked later new.id) (new ∷ keys))
        ≡ Auth.resolve hash false (some (other ∷ others)) keys
  unfolding Auth.resolve Auth.get_by_key_hash
  other-resolve other differs fresh =
      rw (unclashed-map later new keys fresh) (ground (arith, open_key, differs))

-- A key that was provisioned lets its holder in as its group; once it is revoked it is refused, and the
-- other keys open what they opened before the key was made.
pub key_lifetime :
    (hash : ℕ → ℕ) (now later id caller raw : ℕ) (keys : List ApiKey) (others : List ℕ)
    → (Auth.provision_key hash now id caller raw keys).1 ≡ some raw
    → (raw == 0) ≡ false
    → let made = (Auth.provision_key hash now id caller raw keys).0 in
      let ended = (Auth.revoke_key false later id made).0 in
      (Auth.resolve hash false (some (raw ∷ others)) made ≡ group caller)
      × (Auth.resolve hash false (some (raw ∷ others)) ended
          ≡ unknown (Auth.unauthenticated Text.invalid_key))
      × ((other : ℕ)
          → (hash other == hash raw) ≡ false
          → Auth.resolve hash false (some (other ∷ others)) ended
            ≡ Auth.resolve hash false (some (other ∷ others)) keys)
unfolding Auth.provision_key Auth.revoke_key new_key
key_lifetime hash now later id caller raw keys others stored real =
    let new : ApiKey = new_key hash now id caller raw in
    let fresh : any (Auth.clashes new) keys ≡ false = created new keys raw stored in
    rw (created-row new keys fresh) (
      made-resolve hash later new keys others refl raw refl real,
      ended-resolve hash later new keys others refl raw refl real fresh,
      λ other differs. other-resolve hash later new keys others refl other differs fresh,
    )
