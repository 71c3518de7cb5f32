-- ===== src/ApiKeys/Tests.antt =====
-- A key for two scopes that expires after a day, with a hash that keeps the text.
use ryvix.Common.{ℕ, ◌≡◌, ◌≢◌, ◌↔◌, refl, String, some, List, [], ◌∷◌}
use ryvix.ApiKeys.{ApiKey, valid, generate_key, verify_key, revoke_key}
use ryvix.ApiKeys.Laws.{Accepts, verify_key_iff, revoke_key-verify_key_ne, generate_key-verify_key}

abbrev plain : List ℕ → List ℕ
plain text = text

abbrev scopes : List String
scopes = "read" ∷ "write" ∷ []

abbrev generated : List ℕ × ApiKey
generated = generate_key plain 1000 (b'9' ∷ b'a' ∷ []) 9 "deploy" scopes (some 1)

verify_key_iff_example :
    (verify_key plain generated.0 generated.1 (some "read") 2000 ≡ valid generated.1)
    ↔ Accepts plain generated.0 generated.1 (some "read") 2000
verify_key_iff_example = verify_key_iff plain generated.0 generated.1 (some "read") 2000

generate_key-verify_key_example :
    verify_key plain generated.0 generated.1 (some "read") 2000 ≡ valid generated.1
generate_key-verify_key_example =
    generate_key-verify_key plain 1000 2000 9 (b'9' ∷ b'a' ∷ []) "deploy" scopes (some 1)
      (some "read") refl (unfold generate_key in refl)

revoke_key-verify_key_ne_example :
    verify_key plain generated.0 (revoke_key generated.1 1500) (some "read") 2000
    ≢ valid generated.1
revoke_key-verify_key_ne_example =
    revoke_key-verify_key_ne plain generated.0 generated.1 generated.1 (some "read") 2000 1500
