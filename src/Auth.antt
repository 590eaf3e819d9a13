-- ===== src/Auth.antt =====
-- internal/auth/interceptor.go and context.go with internal/storage/postgres/api_key.go: the keys of
-- the tenant groups, and the group that a request is made for. runProvision of
-- cmd/boundflow/main.go makes a group with its first key. SHA-256 is the parameter `hash`.
pub mod Access
use boundflow.Base.{
  ℕ, Bool, true, false, ◌&&◌, ◌||◌, Option, none, some, List, [], ◌∷◌, ◌==◌, any, map, is_none,
  if◌then◌else◌,
}
use boundflow.Api.{World, Code, Text, Status, Answer, Env}
use boundflow.Api.Calls.{Call, Library, serve}

pub record ApiKey : Type 0 where
  pub id : ℕ
  pub key_hash : ℕ
  pub tenant_group_id : ℕ
  pub created_at : ℕ
  pub revoked_at : Option ℕ

-- `id` is the primary key, `key_hash` is UNIQUE.
abbrev pub clashes : ApiKey → ApiKey → Bool
clashes new k = k.id == new.id || k.key_hash == new.key_hash

-- ApiKeyRepo.Create: false is ErrAlreadyExists.
unfoldable pub create_key : ApiKey → List ApiKey → List ApiKey × Bool
create_key new keys = if any (clashes new) keys then (keys, false) else (new ∷ keys, true)

-- ApiKeyRepo.GetByKeyHash.
unfoldable pub get_by_key_hash : ℕ → List ApiKey → Option ApiKey
get_by_key_hash hashed [] = none
get_by_key_hash hashed (k ∷ rest) =
    let behind = get_by_key_hash hashed rest in
    if k.key_hash == hashed && is_none k.revoked_at then some k else behind

abbrev pub revoked : ℕ → ℕ → ApiKey → ApiKey
revoked now id k =
    if k.id == id && is_none k.revoked_at then record k { revoked_at = some now } else k

-- ApiKeyRepo.Revoke, and whether it returned nil: it does so also where no row was changed, since
-- handleError makes no error of nil.
unfoldable pub revoke_key : Bool → ℕ → ℕ → List ApiKey → List ApiKey × Bool
revoke_key fault now id keys = if fault then (keys, false) else (map (revoked now id) keys, true)

-- The values of the header of a request; none is a context without metadata.
abbrev pub Header : Type 0
Header = Option (List ℕ)

abbrev pub unauthenticated : Text → Status
unauthenticated t = record { code = Code.unauthenticated; text = t }

pub data Identity : Type 0 where
  group : ℕ → Identity
  unknown : Status → Identity

-- `resolve` after GetByKeyHash.
abbrev pub identity_of : Option ApiKey → Identity
identity_of none = unknown (unauthenticated Text.invalid_key)
identity_of (some k) = group k.tenant_group_id

abbrev pub look_up : Bool → ℕ → List ApiKey → Identity
look_up fault hashed keys =
    if fault then identity_of none else identity_of (get_by_key_hash hashed keys)

-- resolve: the first value of the header counts, an empty one as none.
unfoldable pub resolve : (ℕ → ℕ) → Bool → Header → List ApiKey → Identity
resolve hash fault none keys = unknown (unauthenticated Text.missing_metadata)
resolve hash fault (some []) keys = unknown (unauthenticated Text.missing_header)
resolve hash fault (some (key ∷ others)) keys =
    if key == 0
    then unknown (unauthenticated Text.missing_header)
    else look_up fault (hash key) keys

abbrev pub answer_to : Library → Env → Call → World → World → Identity → World × Answer
answer_to l x c seen w (unknown status) = (w, Answer.refused status)
answer_to l x c seen w (group caller) = serve l x caller c seen w

-- UnaryInterceptor before a call.
unfoldable pub intercept :
    (ℕ → ℕ) → Bool → Header → List ApiKey → Library → Env → Call → World → World → World × Answer
intercept hash fault header keys l x c seen w =
    answer_to l x c seen w (resolve hash fault header keys)

-- runProvision from the key on: the group is new, `raw` was generated, and the key is printed where
-- the row went in.
unfoldable pub provision_key : (ℕ → ℕ) → ℕ → ℕ → ℕ → ℕ → List ApiKey → List ApiKey × Option ℕ
provision_key hash now id tenant_group raw keys =
    let (after, stored) =
      create_key
        (record {
          id = id;
          key_hash = hash raw;
          tenant_group_id = tenant_group;
          created_at = now;
          revoked_at = none;
        })
        keys in
    (after, if stored then some raw else none)
