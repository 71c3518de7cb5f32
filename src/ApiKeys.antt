-- ===== src/ApiKeys.antt =====
-- The lifecycle of API keys: services/src/security/api-key.service.ts. Texts are lists of code
-- units; `hash` is SHA-256, whose digests are compared as bytes; times are milliseconds. The
-- generated identifier of a record is left out.
pub mod Laws
mod Tests
use ryvix.Common.{
  ℕ, ◌+◌, ◌*◌, String, str_eq, Bool, true, false, not, ◌&&◌, Option, none, some, List, [], ◌∷◌,
  ◌++◌, ◌==◌, ltb, if◌then◌else◌, is_some, holds, length, any, take,
}
use ryvix.Common.Text.{text, same_text, starts_with}

pub record ApiKey : Type 0 where
  pub organization_id : ℕ
  pub name : String
  pub key_prefix : List ℕ
  pub hashed_secret : List ℕ
  pub scopes : List String
  pub expires_at : Option ℕ
  pub last_used_at : Option ℕ
  pub revoked_at : Option ℕ
  pub created_at : ℕ

-- `keyPrefix`
abbrev pub key_prefix : List ℕ
key_prefix = text "ryv_live_"

pub data Reason : Type 0 where
  bad_prefix mismatch revoked expired lacks_scope : Reason

-- `timingSafeEqual` throws at buffers of different lengths.
pub data Verdict : Type 0 where
  valid : ApiKey → Verdict
  invalid : Reason → Verdict
  thrown : Verdict

-- `requiredScope && !scopes.includes(requiredScope)`
abbrev pub lacks : Option String → List String → Bool
lacks none scopes = false
lacks (some scope) scopes =
    if str_eq scope "" then false else not (any (λ s. str_eq s scope) scopes)

-- `currentTime.getTime() > expiresAt.getTime()`
abbrev pub is_expired : ℕ → ApiKey → Bool
is_expired now k = holds (λ at. ltb at now) k.expires_at

unfoldable pub check_record : ApiKey → Option String → ℕ → Verdict
check_record k scope now =
    if is_some k.revoked_at
    then invalid revoked
    else if is_expired now k
    then invalid expired
    else if lacks scope k.scopes
    then invalid lacks_scope
    else valid k

-- `expiresInDays ? now + expiresInDays * 86400000 : null`
abbrev pub expiry : ℕ → Option ℕ → Option ℕ
expiry now none = none
expiry now (some days) = if days == 0 then none else some (now + days * 86400000)

module _ (hash : List ℕ → List ℕ) where
  -- `generateKey`: the text that is shown once, and the record; `secret` is the hex text of the
  -- random bytes.
  unfoldable pub generate_key : ℕ → List ℕ → ℕ → String → List String → Option ℕ → List ℕ × ApiKey
  generate_key now secret organization name scopes expires_in_days = (
    key_prefix ++ secret,
    record {
      organization_id = organization;
      name = name;
      key_prefix = take 16 (key_prefix ++ secret);
      hashed_secret = hash (key_prefix ++ secret);
      scopes = scopes;
      expires_at = expiry now expires_in_days;
      last_used_at = none;
      revoked_at = none;
      created_at = now;
    },
  )

  -- `verifyKey`
  unfoldable pub verify_key : List ℕ → ApiKey → Option String → ℕ → Verdict
  unfolding starts_with same_text check_record
  verify_key presented k scope now =
      if starts_with presented key_prefix
      then if length (hash presented) == length k.hashed_secret
        then if same_text (hash presented) k.hashed_secret
          then check_record k scope now
          else invalid mismatch
        else thrown
      else invalid bad_prefix

-- `revokeKey`
unfoldable pub revoke_key : ApiKey → ℕ → ApiKey
revoke_key k now = record k { revoked_at = some now }
