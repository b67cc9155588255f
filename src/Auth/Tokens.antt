-- ===== src/Auth/Tokens.antt =====
-- Who a request speaks for.
use job_scheduler.Prelude.{
  ne_of_str_eq, after_prefix-<>, ◌<>◌, ap, ◌∙◌, ℕ, ◌+◌, ◌*◌, ◌<◌, ◌≡◌, ◌≢◌, refl, String, Option,
  none, some,
}
use job_scheduler.Json.{Js, Fields, get_field, to_text}
use job_scheduler.Auth.{
  Env, Jose, Claims, secret, claim_fields, claims_of, sign_token, verify_token, claims_from_request,
}

-- What the JWT library documents of a token that it signs: it verifies under its key until it
-- expires, and its payload then has the fields that were signed, beside the times `iat` and `exp`.
abbrev pub VerifiesOwn : Jose → Fields → ℕ → ℕ → String → Type 0
VerifiesOwn jose payload issued expires key =
    (now : ℕ)
    → now < expires
    → (back : Fields) × (jose.verify (jose.sign payload issued expires key) key now ≡ some back)
      × ((k : String) → k ≢ "iat" → k ≢ "exp" → get_field k back ≡ get_field k payload)

claims_of-kept :
    (js : Js) (c : Claims) (back : Fields)
    → ((k : String) → k ≢ "iat" → k ≢ "exp" → get_field k back ≡ get_field k (claim_fields c))
    → some (claims_of js back) ≡ some c
unfolding to_text
claims_of-kept js c back kept =
    rw
      (
        kept "user_id" (ne_of_str_eq "user_id" "iat" refl) (ne_of_str_eq "user_id" "exp" refl),
        kept "org_id" (ne_of_str_eq "org_id" "iat" refl) (ne_of_str_eq "org_id" "exp" refl),
        kept "email" (ne_of_str_eq "email" "iat" refl) (ne_of_str_eq "email" "exp" refl),
        kept "role" (ne_of_str_eq "role" "iat" refl) (ne_of_str_eq "role" "exp" refl),
      )
      refl

verify-sign :
    (jose : Jose) (env : Env) (js : Js) (issued now : ℕ) (c : Claims)
    → VerifiesOwn jose (claim_fields c) issued (issued + 24 * 3600) (secret env)
    → now < issued + 24 * 3600
    → verify_token jose env js now (sign_token jose env issued c) ≡ some c
unfolding sign_token verify_token secret to_text
verify-sign jose env js issued now c own fresh =
    let (back, verifies, kept) = own now fresh in
    ap (λ (o : Option Fields). elim o [ none ↦ none | some p ↦ some (claims_of js p) ]) verifies
    ∙ claims_of-kept js c back kept

-- If the JWT library verifies the token that it signs for a set of claims, a request that sends the
-- token as its bearer within 24 hours of signing speaks for exactly those claims.
pub claims_round_trip :
    (jose : Jose) (env : Env) (js : Js) (issued now : ℕ) (c : Claims)
    → VerifiesOwn jose (claim_fields c) issued (issued + 24 * 3600) (secret env)
    → now < issued + 24 * 3600
    → claims_from_request jose env js now (some ("Bearer " <> sign_token jose env issued c))
      ≡ some c
unfolding claims_from_request
claims_round_trip jose env js issued now c own fresh =
    ap
      (λ (o : Option String). elim o [
        | none ↦ none
        | some token ↦ verify_token jose env js now token
      ])
      (after_prefix-<> "Bearer " (sign_token jose env issued c))
    ∙ verify-sign jose env js issued now c own fresh
