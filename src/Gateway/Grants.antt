-- ===== src/Gateway/Grants.antt =====
-- src/gateway/capability-token.ts, what a verified token and a verified grant are bound to.
use hx_fortress.Prelude.{
  ◌≡◌, refl, sym, ap, subst, ◌∙◌, inl, inr, Bool, true, false, ◌&&◌, ◌||◌, not, Option, none, some,
  [], ◌∷◌, arith, Bool-cases, nat_eq, Text, text_beq, text_beq_iff, text_eq, value, or_throw,
  value-bound, or_throw-value, value-inj,
}
use hx_fortress.Gateway.{
  Payload, Purpose, ingest, read, CapabilityClaims, GrantClaims, TokenError, bad_signature,
  missing_org_or_repo, version_unsupported, purpose_mismatch, org_mismatch, audience_mismatch,
  missing_sub, missing_scope_hash, string_of, number_of, purpose_of, purpose_required, purpose_beq,
  is_some_text, is_text, is_two, has_purpose, claims_of, known_org, bound_to, bind_claims, ensure,
  is_empty_text, has_scope, verify_capability_token, verify_grant,
}

ensure-value : (test : Bool) (e : TokenError) (u : Unit {0}) → ensure test e ≡ value u → test ≡ true
ensure-value true e u same = refl
ensure-value false e u same = ground (arith, same)

purpose_beq-same : (p q : Purpose) → purpose_beq p q ≡ true → p ≡ q
purpose_beq-same ingest ingest e = refl
purpose_beq-same read read e = refl
purpose_beq-same ingest read e = ground (arith, e)
purpose_beq-same read ingest e = ground (arith, e)

-- What a grant says, once it is verified for a purpose and an org.
pub record IsGrant (expected : Text) (wanted : Purpose) (require_scope : Bool) (p : Payload)
    (grant : GrantClaims) : Type 0 where
  pub versioned : is_two (number_of p.v) ≡ true
  pub purposed : grant.purpose ≡ wanted
  pub own_org : grant.org ≡ expected
  pub own_audience : grant.aud ≡ expected
  pub subject : string_of p.sub ≡ some grant.sub
  pub named : is_empty_text grant.sub ≡ false
  pub scoped : (wanted ≡ read) → (require_scope ≡ true) → has_scope grant.scope_hash ≡ true

not-true : (test : Bool) → not test ≡ true → test ≡ false
not-true false e = refl
not-true true e = ground (arith, e)

scope_there :
    (wanted : Purpose) (require_scope scope : Bool)
    → wanted ≡ read
    → require_scope ≡ true
    → (not (purpose_beq wanted read && require_scope) || scope) ≡ true
    → scope ≡ true
scope_there ingest require_scope scope is_read asks e = ground (arith, is_read)
scope_there read true scope is_read asks e = e
scope_there read false scope is_read asks e = ground (arith, asks)

-- A grant that verifies is one of the payload that was signed, of version 2, for the purpose asked for,
-- of and for the expected org, with a subject, and with a scope where a read asks for one.
pub verify_grant_sound :
    (expected : Text) (wanted : Purpose) (require_scope : Bool) (verified : Option Payload)
    (grant : GrantClaims)
    → verify_grant expected wanted require_scope verified ≡ value grant
    → (p : Payload) × ((verified ≡ some p) × IsGrant expected wanted require_scope p grant)
unfolding verify_grant
verify_grant_sound expected wanted require_scope verified grant e =
    let b0 = value-bound (or_throw verified bad_signature) _ grant e in
    let p = b0.0 in
    let b1 = value-bound (ensure (is_two (number_of p.v)) version_unsupported) _ grant b0.1.1 in
    let b2 = value-bound (purpose_required p.purpose) _ grant b1.1.1 in
    let b3 = value-bound (ensure (purpose_beq b2.0 wanted) purpose_mismatch) _ grant b2.1.1 in
    let b4 = value-bound (or_throw (string_of p.org) org_mismatch) _ grant b3.1.1 in
    let b5 = value-bound (ensure (text_beq b4.0 expected) org_mismatch) _ grant b4.1.1 in
    let b6 = value-bound (or_throw (string_of p.aud) audience_mismatch) _ grant b5.1.1 in
    let b7 = value-bound (ensure (text_beq b6.0 expected) audience_mismatch) _ grant b6.1.1 in
    let b8 = value-bound (or_throw (string_of p.sub) missing_sub) _ grant b7.1.1 in
    let b9 = value-bound (ensure (not (is_empty_text b8.0)) missing_sub) _ grant b8.1.1 in
    let b10 =
      value-bound
        (ensure
          (not (purpose_beq wanted read && require_scope) || has_scope (string_of p.scope_hash))
          missing_scope_hash)
        _ grant b9.1.1 in
    (
      p,
      (
        or_throw-value verified bad_signature p b0.1.0,
        subst (IsGrant expected wanted require_scope p) (value-inj _ _ b10.1.1) (record {
          versioned = ensure-value _ _ _ b1.1.0;
          purposed = purpose_beq-same _ _ (ensure-value _ _ _ b3.1.0);
          own_org = (text_beq_iff _ _).0 (ensure-value _ _ _ b5.1.0);
          own_audience = (text_beq_iff _ _).0 (ensure-value _ _ _ b7.1.0);
          subject = or_throw-value _ _ _ b8.1.0;
          named = not-true _ (ensure-value _ _ _ b9.1.0);
          scoped = λ is_read asks.
              scope_there wanted require_scope (has_scope (string_of p.scope_hash)) is_read asks
                (ensure-value _ _ _ b10.1.0);
        }),
      ),
    )

-- What a token says, once it is verified: it is one that was signed, of the org that is known where it
-- has an audience or a purpose, and always where grants are required.
pub record IsToken (enforcing : Bool) (expected : Option Text) (p : Payload)
    (claims : CapabilityClaims) : Type 0 where
  pub subject : string_of p.sub ≡ claims.sub
  pub bound :
      (is_some_text claims.aud || (has_purpose claims.purpose || enforcing)) ≡ true
      → (expected ≡ some claims.org) × (claims.aud ≡ some claims.org)

is_text-some : (found : Option Text) (t : Text) → is_text found t ≡ true → found ≡ some t
is_text-some none t e = ground (arith, e)
is_text-some (some s) t e = ap some ((text_beq_iff s t).0 e)

bound_to-bound :
    (expected : Option Text) (claims bound : CapabilityClaims)
    → bound_to (known_org expected) claims ≡ value bound
    → (claims ≡ bound) × ((expected ≡ some claims.org) × (claims.aud ≡ some claims.org))
bound_to-bound none claims bound e = ground (arith, e)
bound_to-bound (some []) claims bound e = ground (arith, e)
bound_to-bound (some (c ∷ org)) claims bound e =
    elim (Bool-cases (is_text claims.aud (c ∷ org) && text_beq claims.org (c ∷ org))) [
      | inl both ↦
          let same : claims.org ≡ c ∷ org = (text_beq_iff _ _).0 (ground (arith, both)) in
          (
            ground (arith, both, e),
            (
              ap some (sym same),
              is_text-some claims.aud (c ∷ org) (ground (arith, both)) ∙ ap some (sym same),
            ),
          )
      | inr differs ↦ ground (arith, differs, e)
    ]

bind_claims-IsToken :
    (enforcing : Bool) (expected : Option Text) (p : Payload) (claims bound : CapabilityClaims)
    → string_of p.sub ≡ claims.sub
    → bind_claims enforcing expected claims ≡ value bound
    → IsToken enforcing expected p bound
unfolding bind_claims
bind_claims-IsToken enforcing expected p claims bound sub e =
    elim (Bool-cases
      (not (is_some_text claims.aud) && (not (has_purpose claims.purpose) && not enforcing))) [
        | inl legacy ↦
            let same : claims ≡ bound = ground (arith, legacy, e) in
            subst (IsToken enforcing expected p) same
              (record { subject = sub; bound = λ modern. ground (arith, legacy, modern) })
        | inr modern ↦
            let held = bound_to-bound expected claims bound (ground (arith, modern, e)) in
            subst (IsToken enforcing expected p) held.0
              (record { subject = sub; bound = λ also. held.1 })
      ]

pub verify_capability_token_sound :
    (enforcing : Bool) (expected : Option Text) (verified : Option Payload)
    (claims : CapabilityClaims)
    → verify_capability_token enforcing expected verified ≡ value claims
    → (p : Payload) × ((verified ≡ some p) × IsToken enforcing expected p claims)
unfolding verify_capability_token claims_of
verify_capability_token_sound enforcing expected verified claims e =
    let b0 = value-bound (or_throw verified bad_signature) _ claims e in
    let p = b0.0 in
    let b1 = value-bound (or_throw (string_of p.org) missing_org_or_repo) _ claims b0.1.1 in
    let b2 = value-bound (or_throw (string_of p.repo) missing_org_or_repo) _ claims b1.1.1 in
    let b3 = value-bound (purpose_of p.purpose) _ claims b2.1.1 in
    (
      p,
      (
        or_throw-value verified bad_signature p b0.1.0,
        bind_claims-IsToken enforcing expected p (claims_of p b1.0 b2.0 b3.0) claims refl b3.1.1,
      ),
    )
