-- ===== src/Ui/SsoGrant/Tests.antt =====
-- The door at work: one grant, presented twice.
use hx_fortress.Prelude.{
  ℕ, ◌+◌, ◌*◌, ◌/◌, ◌<◌, ◌≡◌, refl, ◌≢◌, true, false, ◌&&◌, some, List, [], ◌∷◌, arith, ltb,
  if◌then◌else◌, ◌==◌, nat_eq, Text, codes, text_beq, text_eq, get, set, prune,
}
use hx_fortress.Ui.SsoGrant.{
  console_grant_skew_seconds, str, num, other, Payload, ConsoleGrantClaims, accepted, Verification,
  verified, failed, Jose, GrantConfig, verify_console_grant, check_claims, is_time_failure,
}
use hx_fortress.Ui.SsoGrant.Verdicts.{Accepts, UsedFrom, accepted_sound}
use hx_fortress.Ui.SsoGrant.Consumed.{present_all, grant_single_use}

abbrev key : Text
key = codes "k"

abbrev grant : Text
grant = codes "g"

abbrev payload : Payload
payload = record {
  purpose = str (codes "console");
  org = str (codes "acme");
  aud = str (codes "acme");
  origin = str (codes "https://f");
  jti = str (codes "j1");
  sub = str (codes "w7");
  exp = num 100_000;
  iat = num 40_000;
  nbf = other;
}

-- A `jose` that knows one token, signed by one key.
toy_verify : Text → Text → ℕ → Verification
toy_verify k g now =
    if g == grant && ltb (now / 1000 * 1000) 130_000
    then verified payload
    else failed (some (codes "ERR_JWS_SIGNATURE_VERIFICATION_FAILED"))

toy_verify-exp :
    (k g : Text) (now : ℕ) (c : Payload)
    → toy_verify k g now ≡ verified c
    → (e : ℕ) × (c.exp ≡ num e) × (now / 1000 * 1000 < e + console_grant_skew_seconds * 1000)
unfolding toy_verify
toy_verify-exp k g now c h = (100_000, ground arith, ground arith)

toy_verify-payload :
    (k g : Text) (now later : ℕ) (c d : Payload)
    → toy_verify k g now ≡ verified c
    → toy_verify k g later ≡ verified d
    → c ≡ d
unfolding toy_verify
toy_verify-payload k g now later c d h i = ground arith

abbrev toy_jose : Jose
toy_jose = record {
  verify = toy_verify;
  decode = λ g. some payload;
  verify-exp = toy_verify-exp;
  verify-payload = toy_verify-payload;
}

abbrev cfg : GrantConfig
cfg = record {
  public_key = some key;
  org_id = some (codes "acme");
  public_url_origin = some (codes "https://f");
  sso_enabled = true;
}

abbrev claims : ConsoleGrantClaims
claims = record { jti = codes "j1"; org = codes "acme"; sub = codes "w7"; exp = 100_000 }

first_time : (verify_console_grant toy_jose cfg grant 60_000 60_005 []).verdict ≡ accepted claims
unfolding verify_console_grant toy_verify check_claims text_beq get set prune
first_time = refl

accepted_sound_example :
    (k : Text) × (c : Payload) × (cfg.public_key ≡ some k)
    × (toy_verify k grant 60_000 ≡ verified c)
    × Accepts cfg c claims
    × UsedFrom (verify_console_grant toy_jose cfg grant 60_000 60_005 []) claims 60_005 []
accepted_sound_example = accepted_sound toy_jose cfg grant 60_000 60_005 [] claims tt first_time

unknown_code : is_time_failure (some (codes "ERR_JWS_SIGNATURE_VERIFICATION_FAILED")) ≡ false
unfolding is_time_failure text_beq
unknown_code = refl

forged :
    toy_verify key (codes "x") 60_000
    ≡ failed (some (codes "ERR_JWS_SIGNATURE_VERIFICATION_FAILED"))
unfolding toy_verify text_beq
forged = refl

abbrev between : List (Text × (ℕ × ℕ))
between = (codes "x", (70_000, 70_000)) ∷ (grant, (80_000, 80_010)) ∷ []

grant_single_use_example :
    (verify_console_grant toy_jose cfg grant 125_000 125_020 (
      present_all toy_jose cfg between
        (verify_console_grant toy_jose cfg grant 60_000 60_005 []).seen)).verdict
    ≢ accepted claims
grant_single_use_example =
    grant_single_use toy_jose cfg grant 60_000 60_005 125_000 125_020 between [] claims claims tt
      first_time (omega arith, (omega arith, _)) (omega arith)

-- A request that is verified in the last millisecond and uses the grant up in the next one: the sweep has
-- forgotten the first use, and the grant is accepted again.
reopened :
    (verify_console_grant toy_jose cfg grant 129_999 130_000
      (verify_console_grant toy_jose cfg grant 60_000 60_005 []).seen).verdict
    ≡ accepted claims
unfolding verify_console_grant toy_verify check_claims text_beq get set prune
reopened = refl
