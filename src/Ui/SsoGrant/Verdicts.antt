-- ===== src/Ui/SsoGrant/Verdicts.antt =====
-- `verifyConsoleGrant`: what each verdict tells about the grant, and what it does not.
use hx_fortress.Prelude.{
  ◌+◌, ◌≤◌, leb, Bool, get, IsMap, get-prune, get-set_self, ℕ, ◌*◌, ◌≡◌, ◌≢◌, refl, sym, ap, ◌∙◌,
  ◌⊎◌, inl, inr, true, false, Text, codes, text_eq, text_beq_iff, List, [], ◌∷◌, Option, none, some,
  arith, Bool-cases, Option-cases,
}
use hx_fortress.Ui.SsoGrant.{
  console_grant_skew_seconds, sweep_seen, generic, Claim, str, num, other, Payload,
  ConsoleGrantClaims, accepted, Verification, verified, failed, Jose, GrantConfig, clock_ok,
  Outcome, string_of, number_of, non_empty, is_time_failure, clock_skew_seconds, consume, reject,
  redeem, agree, sub_of, check_claims, explain_failure, verify_console_grant,
}

pub agree-some : (a b : Option Text) (x : Text) → agree a b ≡ some x → (a ≡ some x) × (b ≡ some x)
agree-some none b x h = absurd (cc)
agree-some (some a) none x h = absurd (cc)
agree-some (some a) (some b) x h = (ground arith, ground (arith, text_beq_iff a b))

pub non_empty-some : (a : Option Text) (x : Text) → non_empty a ≡ some x → (a ≡ some x) × (x ≢ [])
non_empty-some none x h = absurd (cc)
non_empty-some (some []) x h = absurd (cc)
non_empty-some (some (c ∷ cs)) x h = (h, λ e. ground (arith, h, e))

string_of-some : (c : Claim) (x : Text) → string_of c ≡ some x → c ≡ str x
string_of-some (str t) x h = ground arith
string_of-some (num n) x h = absurd (cc)
string_of-some other x h = absurd (cc)

number_of-some : (c : Claim) (x : ℕ) → number_of c ≡ some x → c ≡ num x
number_of-some (str t) x h = absurd (cc)
number_of-some (num n) x h = ground arith
number_of-some other x h = absurd (cc)

-- What an accepted payload says, against this fortress's own configuration.
pub record Accepts (cfg : GrantConfig) (c : Payload) (claims : ConsoleGrantClaims) : Type 0 where
  pub for_console : c.purpose ≡ str (codes "console")
  pub enabled : cfg.sso_enabled ≡ true
  pub own_org : cfg.org_id ≡ some claims.org
  pub org : c.org ≡ str claims.org
  pub aud : c.aud ≡ str claims.org
  pub own_origin : (o : Text) × (cfg.public_url_origin ≡ some o) × (c.origin ≡ str o) × (o ≢ [])
  pub jti : c.jti ≡ str claims.jti
  pub exp : c.exp ≡ num claims.exp
  pub named : (claims.org ≢ []) × (claims.jti ≢ [])

redeem-accepted :
    (j : Option Text) (e : Option ℕ) (org sub : Text) (now : ℕ) (seen : List (Text × ℕ))
    (claims : ConsoleGrantClaims)
    → (redeem j e org sub now seen).verdict ≡ accepted claims
    → (j ≡ some claims.jti)
      × (e ≡ some claims.exp)
      × (claims.org ≡ org)
      × ((consume claims.jti (claims.exp) now seen).1 ≡ true)
      × ((redeem j e org sub now seen).seen ≡ (consume claims.jti (claims.exp) now seen).0)
      × ((redeem j e org sub now seen).note ≡ clock_ok)
redeem-accepted none e org sub now seen claims h = absurd (ground arith)
redeem-accepted (some j) none org sub now seen claims h = absurd (ground arith)
redeem-accepted (some j) (some e) org sub now seen claims h =
    elim (Bool-cases (consume j e now seen).1) [
      | inl fresh ↦ (
        ground (arith, fresh),
        ground (arith, fresh),
        ground (arith, fresh),
        ground (arith, fresh),
        ground (arith, fresh),
        ground (arith, fresh),
      )
      | inr used ↦ absurd (ground (arith, used))
    ]

Accepts-intro :
    (cfg : GrantConfig) (c : Payload) (claims : ConsoleGrantClaims) (pu org origin : Text)
    → agree (some (codes "console")) (string_of c.purpose) ≡ some pu
    → cfg.sso_enabled ≡ true
    → agree (agree (non_empty (string_of c.org)) (string_of c.aud)) (non_empty cfg.org_id)
      ≡ some org
    → agree (non_empty cfg.public_url_origin) (string_of c.origin) ≡ some origin
    → non_empty (string_of c.jti) ≡ some claims.jti
    → number_of c.exp ≡ some claims.exp
    → claims.org ≡ org
    → Accepts cfg c claims
Accepts-intro cfg c claims pu org origin ep on eo eg ej ee same =
    let (console, purpose) = agree-some (some (codes "console")) (string_of c.purpose) pu ep in
    let (both, own) = agree-some _ _ org eo in
    let (org_claim, aud_claim) = agree-some _ _ org both in
    let (advertised, origin_claim) = agree-some _ _ origin eg in
    let (org_text, org_full) = non_empty-some _ org org_claim in
    let (jti_text, jti_full) = non_empty-some _ claims.jti ej in
    let (own_text, own_full) = non_empty-some _ org own in
    let (url_text, url_full) = non_empty-some _ origin advertised in
    record {
      for_console = string_of-some c.purpose pu purpose ∙ ground (arith, console);
      enabled = on;
      own_org = rw same own_text;
      org = rw same (string_of-some c.org org org_text);
      aud = rw same (string_of-some c.aud org aud_claim);
      own_origin = (origin, url_text, string_of-some c.origin origin origin_claim, url_full);
      jti = string_of-some c.jti claims.jti jti_text;
      exp = number_of-some c.exp claims.exp ee;
      named = (rw same org_full, jti_full);
    }

-- What a redeemed grant leaves behind.
abbrev Redeems : Outcome → ConsoleGrantClaims → ℕ → List (Text × ℕ) → Type 0
Redeems o claims now seen =
    ((consume claims.jti (claims.exp) now seen).1 ≡ true)
    × (o.seen ≡ (consume claims.jti (claims.exp) now seen).0)
    × (o.note ≡ clock_ok)

check_claims-passed :
    (cfg : GrantConfig) (c : Payload) (now : ℕ) (seen : List (Text × ℕ))
    (claims : ConsoleGrantClaims) (pu org origin : Text)
    → (check_claims cfg c now seen).verdict ≡ accepted claims
    → agree (some (codes "console")) (string_of c.purpose) ≡ some pu
    → cfg.sso_enabled ≡ true
    → agree (agree (non_empty (string_of c.org)) (string_of c.aud)) (non_empty cfg.org_id)
      ≡ some org
    → agree (non_empty cfg.public_url_origin) (string_of c.origin) ≡ some origin
    → Accepts cfg c claims × Redeems (check_claims cfg c now seen) claims now seen
unfolding check_claims
check_claims-passed cfg c now seen claims pu org origin h ep on eo eg =
    let step : check_claims cfg c now seen
        ≡ redeem (non_empty (string_of c.jti)) (number_of c.exp) org (sub_of (string_of c.sub)) now
            seen =
      ground (arith, ep, on, eo, eg) in
    let (ej, ee, same, fresh, left, note) =
      redeem-accepted (non_empty (string_of c.jti)) (number_of c.exp) org (sub_of (string_of c.sub))
        now seen claims (ap (λ (o : Outcome). o.verdict) (sym step) ∙ h) in
    (
      Accepts-intro cfg c claims pu org origin ep on eo eg ej ee same,
      (fresh, ap (λ (o : Outcome). o.seen) step ∙ left, ap (λ (o : Outcome). o.note) step ∙ note),
    )

check_claims-accepted :
    (cfg : GrantConfig) (c : Payload) (now : ℕ) (seen : List (Text × ℕ))
    (claims : ConsoleGrantClaims)
    → (check_claims cfg c now seen).verdict ≡ accepted claims
    → Accepts cfg c claims × Redeems (check_claims cfg c now seen) claims now seen
unfolding check_claims
check_claims-accepted cfg c now seen claims h =
    elim (Option-cases (agree (some (codes "console")) (string_of c.purpose))) [
      | inl e ↦ absurd (ground (arith, e))
      | inr (pu, ep) ↦ elim (Bool-cases cfg.sso_enabled) [
        | inr off ↦ absurd (ground (arith, ep, off))
        | inl on ↦
            elim (Option-cases (
              agree (agree (non_empty (string_of c.org)) (string_of c.aud))
                (non_empty cfg.org_id))) [
                  | inl e ↦ absurd (ground (arith, ep, on, e))
                  | inr (org, eo) ↦
                      elim (Option-cases
                        (agree (non_empty cfg.public_url_origin) (string_of c.origin))) [
                          | inl e ↦ absurd (ground (arith, ep, on, eo, e))
                          | inr (origin, eg) ↦
                              check_claims-passed cfg c now seen claims pu org origin h ep on eo eg
                        ]
                ]
      ]
    ]

explain_failure-refuses :
    (code : Option Text) (decoded : Option Payload) (now : ℕ) (seen : List (Text × ℕ))
    (claims : ConsoleGrantClaims)
    → (explain_failure code decoded now seen).verdict ≢ accepted claims
unfolding explain_failure
explain_failure-refuses code decoded now seen claims = λ h.
    elim (Bool-cases (is_time_failure code)) [
      | inr no_time ↦ ground (arith, no_time, h)
      | inl time ↦ elim (Option-cases (clock_skew_seconds decoded now)) [
        | inl e ↦ ground (arith, time, e, h)
        | inr (z, e) ↦ ground (arith, time, e, h)
      ]
    ]

-- A grant that is consumed was not on record, or its record was past the tolerance; it is on record then.
consume-fresh :
    (jti : Text) (expiry at : ℕ) (seen : List (Text × ℕ))
    → IsMap seen
    → (consume jti expiry at seen).1 ≡ true
    → ((get jti seen ≡ none)
        ⊎ ((old : ℕ) × ((get jti seen ≡ some old)
              × (old + console_grant_skew_seconds * 1000 ≤ at))))
      × (get jti (consume jti expiry at seen).0 ≡ some expiry)
unfolding consume sweep_seen
consume-fresh jti expiry at seen m h =
    let over : ℕ → Bool = λ e. leb (e + console_grant_skew_seconds * 1000) at in
    let kept = get-prune over jti seen m in
    elim (Option-cases (get jti (sweep_seen at seen))) [
      | inr (x, old) ↦ absurd (ground (arith, old, h))
      | inl fresh ↦ (
        elim (Option-cases (get jti seen)) [
          | inl gone ↦ inl gone
          | inr (old, there) ↦ elim (Bool-cases (over old)) [
            | inl past ↦ inr (old, (there, ground (arith, past)))
            | inr held ↦ absurd (ground (arith, kept, there, held, fresh))
          ]
        ],
        rw (fresh, consume) (get-set_self jti expiry (sweep_seen at seen)),
      )
    ]

-- A grant whose use is on record until the tolerance after its expiry, and was not on record before.
abbrev pub UsedFrom : Outcome → ConsoleGrantClaims → ℕ → List (Text × ℕ) → Type 0
UsedFrom o claims spent_at seen =
    ((get claims.jti seen ≡ none)
      ⊎ ((old : ℕ) × ((get claims.jti seen ≡ some old) × (old + 30_000 ≤ spent_at))))
    × (get claims.jti o.seen ≡ some claims.exp)
    × (o.note ≡ clock_ok)

module _ (jose : Jose) where
  pub accepted_facts :
      (cfg : GrantConfig) (grant : Text) (now spent_at : ℕ) (seen : List (Text × ℕ))
      (claims : ConsoleGrantClaims)
      → (verify_console_grant jose cfg grant now spent_at seen).verdict ≡ accepted claims
      → (key : Text) × (c : Payload) × (cfg.public_key ≡ some key)
        × (jose.verify key grant now ≡ verified c)
        × Accepts cfg c claims
        × Redeems (verify_console_grant jose cfg grant now spent_at seen) claims spent_at seen
  unfolding verify_console_grant
  accepted_facts cfg grant now spent_at seen claims h =
      elim (Option-cases (non_empty cfg.public_key)) [
        | inl e ↦ absurd (ground (arith, e))
        | inr (key, e) ↦ by_answer key e (jose.verify key grant now) refl
      ]
    where
      by_answer :
          (key : Text)
          → non_empty cfg.public_key ≡ some key
          → (v : Verification) → jose.verify key grant now ≡ v
          → (key : Text) × (c : Payload) × (cfg.public_key ≡ some key)
            × (jose.verify key grant now ≡ verified c)
            × Accepts cfg c claims
            × Redeems (verify_console_grant jose cfg grant now spent_at seen) claims spent_at seen
      by_answer key e (failed code) q =
          absurd (
            explain_failure-refuses code (jose.decode grant) now seen claims (ground (arith, e, q)))
      by_answer key e (verified c) q =
          let step : verify_console_grant jose cfg grant now spent_at seen
              ≡ check_claims cfg c spent_at seen =
            ground (arith, e, q) in
          let (facts, (fresh, left, note)) =
            check_claims-accepted cfg c spent_at seen claims
              (ap (λ (o : Outcome). o.verdict) (sym step) ∙ h) in
          (
            key,
            c,
            (non_empty-some cfg.public_key key e).0,
            q,
            facts,
            (
              fresh,
              ap (λ (o : Outcome). o.seen) step ∙ left,
              ap (λ (o : Outcome). o.note) step ∙ note,
            ),
          )

  -- An accepted grant was verified with this fortress's key at the moment of the verification, is for the
  -- console, and names this fortress's organization and advertised origin. No use of its id was on record, or
  -- only one that was 30 s past its expiry at the moment of the use; its use is on record from then on, with
  -- its expiry. The record has no id twice.
  pub accepted_sound :
      (cfg : GrantConfig) (grant : Text) (now spent_at : ℕ) (seen : List (Text × ℕ))
      (claims : ConsoleGrantClaims)
      → IsMap seen
      → (verify_console_grant jose cfg grant now spent_at seen).verdict ≡ accepted claims
      → (key : Text) × (c : Payload) × (cfg.public_key ≡ some key)
        × (jose.verify key grant now ≡ verified c)
        × Accepts cfg c claims
        × UsedFrom (verify_console_grant jose cfg grant now spent_at seen) claims spent_at seen
  accepted_sound cfg grant now spent_at seen claims m h =
      let (key, c, ek, ev, facts, (fresh, left, note)) =
        accepted_facts cfg grant now spent_at seen claims h in
      let used = consume-fresh claims.jti claims.exp spent_at seen m fresh in
      (key, c, ek, ev, facts, (used.0, ap (get claims.jti) left ∙ used.1, note))

  -- A token that this fortress cannot verify is told nothing: with no key, or with a failure that is
  -- not one of the window, the answer is the generic page whatever the configuration, the clock, the
  -- used grants and the token's claims are, and nothing is recorded.
  pub unverified_says_nothing :
      (cfg : GrantConfig) (grant key : Text) (code : Option Text) (now spent_at : ℕ)
      (seen : List (Text × ℕ))
      → jose.verify key grant now ≡ failed code
      → is_time_failure code ≡ false
      → (cfg.public_key ≡ none) ⊎ (cfg.public_key ≡ some key)
      → verify_console_grant jose cfg grant now spent_at seen ≡ reject generic seen
  unfolding verify_console_grant explain_failure
  unverified_says_nothing cfg grant key code now spent_at seen bad kind (inl e) = ground (arith, e)
  unverified_says_nothing cfg grant [] code now spent_at seen bad kind (inr e) = ground (arith, e)
  unverified_says_nothing cfg grant (c ∷ cs) code now spent_at seen bad kind (inr e) =
      ground (arith, e, bad, kind)
