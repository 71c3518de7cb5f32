-- ===== src/ApiKeys/Laws.antt =====
-- Which texts `verifyKey` of services/src/security/api-key.service.ts accepts.
use ryvix.Common.{
  ℕ, ◌≡◌, ◌≢◌, ◌↔◌, refl, String, true, false, Option, none, List, ◌==◌, Bool-cases, Option-cases,
  inl, inr, length, ==_refl,
}
use ryvix.Common.Text.{same_text, starts_with, same_text_sound, same_text_refl, starts_with-append}
use ryvix.ApiKeys.{
  ApiKey, key_prefix, valid, lacks, is_expired, check_record, generate_key, verify_key, revoke_key,
}

-- A record that accepts a presented text.
pub record Accepts (hash : List ℕ → List ℕ) (text : List ℕ) (k : ApiKey) (scope : Option String)
    (now : ℕ) : Type 0 where
  pub prefixed : starts_with text key_prefix ≡ true
  pub matches : hash text ≡ k.hashed_secret
  pub unrevoked : k.revoked_at ≡ none
  pub unexpired : is_expired now k ≡ false
  pub in_scope : lacks scope k.scopes ≡ false

module _ (hash : List ℕ → List ℕ) where
  accepted :
      (text : List ℕ) (k : ApiKey) (scope : Option String) (now : ℕ)
      → Accepts hash text k scope now
      → verify_key hash text k scope now ≡ valid k
  unfolding verify_key check_record
  accepted text k scope now a =
      rw (a.prefixed, a.matches, ==_refl (length k.hashed_secret), same_text_refl k.hashed_secret)
        (rw (a.unrevoked, a.unexpired, a.in_scope) refl)

checked :
    (k r : ApiKey) (scope : Option String) (now : ℕ)
    → check_record k scope now ≡ valid r
    → (k.revoked_at ≡ none) × (is_expired now k ≡ false) × (lacks scope k.scopes ≡ false) × (r ≡ k)
unfolding check_record
checked k r scope now h = elim (Option-cases k.revoked_at) [
  | inr (at, e) ↦ absurd (cc (rw (e, check_record) at h))
  | inl e ↦ elim (Bool-cases (is_expired now k)) [
    | inl x ↦ absurd (cc (rw x at (rw (e, check_record) at h)))
    | inr x ↦ elim (Bool-cases (lacks scope k.scopes)) [
      | inl l ↦ absurd (cc (rw l at (rw x at (rw (e, check_record) at h))))
      | inr l ↦ (e, x, l, cc (rw l at (rw x at (rw (e, check_record) at h))))
    ]
  ]
]

-- A text is accepted for a record exactly if it has the prefix, its digest is the stored one, and
-- the record is not revoked, has the scope that is required, and has no expiry before the time of the
-- check: at the very millisecond of its expiry it is still accepted.
pub verify_key_iff :
    (hash : List ℕ → List ℕ) (text : List ℕ) (k : ApiKey) (scope : Option String) (now : ℕ)
    → (verify_key hash text k scope now ≡ valid k) ↔ Accepts hash text k scope now
unfolding verify_key
verify_key_iff hash text k scope now = (to, accepted hash text k scope now)
  where
    to : verify_key hash text k scope now ≡ valid k → Accepts hash text k scope now
    to h = elim (Bool-cases (starts_with text key_prefix)) [
      | inr p ↦ absurd (cc (rw (p, verify_key) at h))
      | inl p ↦ elim (Bool-cases (length (hash text) == length k.hashed_secret)) [
        | inr l ↦ absurd (cc (rw l at (rw (p, verify_key) at h)))
        | inl l ↦ elim (Bool-cases (same_text (hash text) k.hashed_secret)) [
          | inr m ↦ absurd (cc (rw m at (rw l at (rw (p, verify_key) at h))))
          | inl m ↦
              let (unrevoked, unexpired, in_scope, _) =
                checked k k scope now (rw m at (rw l at (rw (p, verify_key) at h))) in
              record {
                prefixed = p;
                matches = same_text_sound (hash text) k.hashed_secret m;
                unrevoked = unrevoked;
                unexpired = unexpired;
                in_scope = in_scope;
              }
        ]
      ]
    ]

-- No text is accepted for a revoked record, at any time and for any scope.
pub revoke_key-verify_key_ne :
    (hash : List ℕ → List ℕ) (text : List ℕ) (k r : ApiKey) (scope : Option String)
    (now revoked : ℕ)
    → verify_key hash text (revoke_key k revoked) scope now ≢ valid r
unfolding verify_key revoke_key check_record
revoke_key-verify_key_ne hash text k r scope now revoked h =
    elim (Bool-cases (starts_with text key_prefix)) [
      | inr p ↦ absurd (cc (rw (p, verify_key) at h))
      | inl p ↦ elim (Bool-cases (length (hash text) == length k.hashed_secret)) [
        | inr l ↦ absurd (cc (rw l at (rw (p, verify_key) at h)))
        | inl l ↦ elim (Bool-cases (same_text (hash text) k.hashed_secret)) [
          | inr m ↦ absurd (cc (rw m at (rw l at (rw (p, verify_key) at h))))
          | inl m ↦ absurd (cc (rw m at (rw l at (rw (p, verify_key) at h))))
        ]
      ]
    ]

-- A generated key is accepted for its record, for each of its scopes or none, up to the millisecond
-- of its expiry, which is included.
pub generate_key-verify_key :
    (hash : List ℕ → List ℕ) (created now organization : ℕ) (secret : List ℕ) (name : String)
    (scopes : List String) (days : Option ℕ) (scope : Option String)
    → lacks scope scopes ≡ false
    → is_expired now (generate_key hash created secret organization name scopes days).1 ≡ false
    → let (text, k) = generate_key hash created secret organization name scopes days in
      verify_key hash text k scope now ≡ valid k
unfolding generate_key
generate_key-verify_key hash created now organization secret name scopes days scope l x =
    let (text, k) = generate_key hash created secret organization name scopes days in
    accepted hash text k scope now (record {
      prefixed = starts_with-append key_prefix secret;
      matches = refl;
      unrevoked = refl;
      unexpired = x;
      in_scope = l;
    })
