-- ===== src/Gateway/Gates.antt =====
-- src/gateway/server.ts: what the verification of a token and of a grant lets through.
use hx_fortress.Prelude.{
  ◌≡◌, refl, sym, ap, subst, ◌∙◌, ◌⊎◌, inl, inr, Bool, true, false, Option, none, some, [], ◌∷◌,
  arith, Bool-cases, Option-cases, nat_eq, Text, text_eq, Try, value, thrown, or_throw, value-bound,
  or_throw-value, value-inj,
}
use hx_fortress.Gateway.{
  Payload, Purpose, CapabilityClaims, GrantClaims, TokenError, is_empty_text, is_v2_claims,
  known_org,
}
use hx_fortress.Gateway.Grants.{IsGrant, verify_grant_sound, IsToken, verify_capability_token_sound}
use hx_fortress.Gateway.Server.{
  Request, Deps, Refusal, unauthorized, Served, ensured, nonempty, caught, authed, grant_of,
  granted, checked_grant, or_empty, routed, store_route, mcp_route, probe, is_mcp, answered, fetch,
}

-- A token of the request that verified, with what its payload says.
pub record IsBearer (deps : Deps) (request : Request) (claims : CapabilityClaims) : Type 0 where
  pub token : Text
  pub key : Text
  pub payload : Payload
  pub carried : request.token ≡ some token
  pub signed : deps.verify token key ≡ some payload
  pub is_token : IsToken deps.enforcing deps.own_org payload claims

-- A grant of that request, for a purpose.
pub record IsGranted (deps : Deps) (request : Request) (purpose : Purpose) (require_scope : Bool)
    (grant : GrantClaims) : Type 0 where
  pub token : Text
  pub key : Text
  pub org : Text
  pub payload : Payload
  pub carried : request.token ≡ some token
  pub own : deps.gate_org ≡ some org
  pub signed : deps.verify token key ≡ some payload
  pub is_grant : IsGrant org purpose require_scope payload grant

pub nonempty-some :
    (found : Option Text) (t : Text)
    → nonempty found ≡ some t
    → (found ≡ some t) × (is_empty_text t ≡ false)
nonempty-some none t e = ground (arith, e)
nonempty-some (some []) t e = ground (arith, e)
nonempty-some (some (c ∷ s)) t e = (e, subst (λ o. is_empty_text (or_empty o) ≡ false) e refl)

known_org-some : (found : Option Text) (org : Text) → known_org found ≡ some org → found ≡ some org
known_org-some none org e = ground (arith, e)
known_org-some (some []) org e = ground (arith, e)
known_org-some (some (c ∷ known)) org e = e

caught-value :
    {A : Type 0} (answer : Try TokenError A) (why : Refusal) (a : A)
    → caught answer why ≡ value a
    → answer ≡ value a
caught-value (value b) why a e = ap value (value-inj b a e)
caught-value (thrown t) why a e = ground (arith, e)

ensured-value : (test : Bool) (e : Refusal) (u : Unit {0}) → ensured test e ≡ value u → test ≡ true
ensured-value true e u same = refl
ensured-value false e u same = ground (arith, same)

pub authed-IsBearer :
    (deps : Deps) (request : Request) (claims : CapabilityClaims)
    → authed deps request ≡ value claims
    → IsBearer deps request claims
unfolding authed
authed-IsBearer deps request claims e =
    let b0 = value-bound (or_throw (nonempty request.token) unauthorized) _ claims e in
    let b1 = value-bound (or_throw (nonempty deps.signing_key) unauthorized) _ claims b0.1.1 in
    let sound =
      verify_capability_token_sound deps.enforcing deps.own_org (deps.verify b0.0 b1.0) claims
        (caught-value _ _ _ b1.1.1) in
    record {
      token = b0.0;
      key = b1.0;
      payload = sound.0;
      carried = (nonempty-some _ _ (or_throw-value _ _ _ b0.1.0)).0;
      signed = sound.1.0;
      is_token = sound.1.1;
    }

grant_of-IsGranted :
    (deps : Deps) (request : Request) (purpose : Purpose) (require_scope : Bool)
    (grant : GrantClaims)
    → grant_of deps request purpose require_scope ≡ value grant
    → IsGranted deps request purpose require_scope grant
unfolding grant_of
grant_of-IsGranted deps request purpose require_scope grant e =
    let b0 = value-bound (or_throw (nonempty deps.gate_key) unauthorized) _ grant e in
    let b1 = value-bound (or_throw (known_org deps.gate_org) unauthorized) _ grant b0.1.1 in
    let b2 = value-bound (or_throw (nonempty request.token) unauthorized) _ grant b1.1.1 in
    let sound =
      verify_grant_sound b1.0 purpose require_scope (deps.verify b2.0 b0.0) grant
        (caught-value _ _ _ b2.1.1) in
    record {
      token = b2.0;
      key = b0.0;
      org = b1.0;
      payload = sound.0;
      carried = (nonempty-some _ _ (or_throw-value _ _ _ b2.1.0)).0;
      own = known_org-some _ _ (or_throw-value _ _ _ b1.1.0);
      signed = sound.1.0;
      is_grant = sound.1.1;
    }

-- What the gate lets through: a grant for a token of version 2, and nothing but such a token where grants
-- are required.
pub data Admitted (deps : Deps) (request : Request) (claims : CapabilityClaims) (purpose : Purpose)
    (require_scope : Bool) : Option GrantClaims → Type 0 where
  by_grant :
      (grant : GrantClaims)
      → IsGranted deps request purpose require_scope grant
      → Admitted deps request claims purpose require_scope (some grant)
  by_tolerance :
      is_v2_claims claims ≡ false
      → deps.enforcing ≡ false
      → Admitted deps request claims purpose require_scope none

module _ (deps : Deps) (request : Request) (claims : CapabilityClaims) (purpose : Purpose)
    (require_scope : Bool) where
  granted-Admitted :
      (answer : Try Refusal GrantClaims) (found : Option GrantClaims)
      → grant_of deps request purpose require_scope ≡ answer
      → granted answer ≡ value found
      → Admitted deps request claims purpose require_scope found
  granted-Admitted (thrown why) found at e = ground (arith, e)
  granted-Admitted (value grant) found at e =
      subst (Admitted deps request claims purpose require_scope) (value-inj _ _ e)
        (by_grant grant (grant_of-IsGranted deps request purpose require_scope grant at))

  pub checked_grant-Admitted :
      (found : Option GrantClaims)
      → checked_grant deps request claims purpose require_scope ≡ value found
      → Admitted deps request claims purpose require_scope found
  unfolding checked_grant
  checked_grant-Admitted found e = elim (Bool-cases (is_v2_claims claims)) [
    | inl modern ↦
        granted-Admitted (grant_of deps request purpose require_scope) found refl
          (ground (arith, modern, e))
    | inr legacy ↦ elim (Bool-cases deps.enforcing) [
      | inl enforcing ↦ ground (arith, legacy, enforcing, e)
      | inr tolerant ↦
          let same : none ≡ found = ground (arith, legacy, tolerant, e) in
          subst (Admitted deps request claims purpose require_scope) same
            (by_tolerance legacy tolerant)
    ]
  ]

-- Where an answer comes from.
pub fetch-routes :
    (deps : Deps) (request : Request) (call : Served)
    → fetch deps request ≡ value call
    → (probe request.method request.path deps ≡ some call)
      ⊎ ((mcp_route deps request ≡ value call) ⊎ (store_route deps request ≡ value call))
unfolding fetch
fetch-routes deps request call e = elim (Option-cases (probe request.method request.path deps)) [
  | inr probed ↦
      inl
        (probed.1 ∙ ap some (value-inj _ _ (sym (ap (λ o. answered o deps request) probed.1) ∙ e)))
  | inl routed ↦ elim (Bool-cases (is_mcp request.path)) [
    | inl to_mcp ↦ inr (inl (ground (arith, routed, to_mcp, e)))
    | inr to_store ↦ inr (inr (ground (arith, routed, to_store, e)))
  ]
]
