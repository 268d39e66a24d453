-- ===== src/Gateway/Authorized.antt =====
-- src/gateway/server.ts: what has been verified of a request that is handed on to the store.
use hx_fortress.Prelude.{
  ◌≡◌, refl, sym, ap, subst, ◌∙◌, inl, inr, true, false, Option, none, some, arith, nat_eq, Text,
  text_eq, value, value-bound, or_throw-value, value-inj,
}
use hx_fortress.Gateway.{
  Purpose, ingest, read, CapabilityClaims, GrantClaims, string_of, is_empty_text,
}
use hx_fortress.Gateway.Server.{
  Method, post, get_method, other_method, Route, healthz, readyz, mcp, append_url, commit,
  agent_append_url, agent_commit, canonical_url, artifact, sessions, elsewhere, Body, Request, Deps,
  vault_offline, principal_object_mismatch, Served, healthy, readiness, mcp_call, sign_upload,
  append_chunk, sign_download, read_artifact, list_metadata, ensured, authed, purpose_of_post,
  purpose_of_get, purpose_for_route, checked_grant, enforce_route_purpose, or_empty, principal, str,
  same_user, is_ingest_write, guard_write, switch_path, list_path, post_route, routed, store_route,
  mcp_route, probe, fetch,
}
use hx_fortress.Gateway.Gates.{
  IsBearer, Admitted, nonempty-some, authed-IsBearer, checked_grant-Admitted, fetch-routes,
}

-- The user whose objects a call is about, and what the call does with them.
abbrev pub owner_of : Served → Option Text
owner_of healthy = none
owner_of (readiness ready) = none
owner_of (mcp_call grant) = none
owner_of (sign_upload key chunk) = some key.user_id
owner_of (append_chunk key chunk replace) = some key.user_id
owner_of (sign_download key) = some key.user_id
owner_of (read_artifact key name) = some key.user_id
owner_of (list_metadata user) = some user

abbrev pub use_of : Served → Purpose
use_of (sign_upload key chunk) = ingest
use_of (append_chunk key chunk replace) = ingest
use_of _ = read

-- What a handler is called with: the principal's own objects, for the purpose of the route.
abbrev pub IsOwn : Text → Option Purpose → Served → Type 0
IsOwn user purpose call = (owner_of call ≡ some user) × (purpose ≡ some (use_of call))

switch_path-IsOwn :
    (path : Route) (user : Text) (body : Body) (call : Served)
    → switch_path path user body ≡ value call
    → IsOwn user (purpose_of_post path) call
switch_path-IsOwn append_url user body call e =
    subst (IsOwn user (some ingest)) (value-inj _ _ e) (refl, refl)
switch_path-IsOwn commit user body call e =
    subst (IsOwn user (some ingest)) (value-inj _ _ e) (refl, refl)
switch_path-IsOwn agent_append_url user body call e =
    subst (IsOwn user (some ingest)) (value-inj _ _ e) (refl, refl)
switch_path-IsOwn agent_commit user body call e =
    subst (IsOwn user (some ingest)) (value-inj _ _ e) (refl, refl)
switch_path-IsOwn canonical_url user body call e =
    subst (IsOwn user (some read)) (value-inj _ _ e) (refl, refl)
switch_path-IsOwn artifact user body call e =
    subst (IsOwn user (some read)) (value-inj _ _ e) (refl, refl)
switch_path-IsOwn healthz user body call e = ground (arith, e)
switch_path-IsOwn readyz user body call e = ground (arith, e)
switch_path-IsOwn mcp user body call e = ground (arith, e)
switch_path-IsOwn sessions user body call e = ground (arith, e)
switch_path-IsOwn elsewhere user body call e = ground (arith, e)

list_path-IsOwn :
    (path : Route) (user : Text) (call : Served)
    → list_path path user ≡ value call
    → IsOwn user (purpose_of_get path) call
list_path-IsOwn sessions user call e = subst (IsOwn user (some read)) (value-inj _ _ e) (refl, refl)
list_path-IsOwn append_url user call e = ground (arith, e)
list_path-IsOwn commit user call e = ground (arith, e)
list_path-IsOwn agent_append_url user call e = ground (arith, e)
list_path-IsOwn agent_commit user call e = ground (arith, e)
list_path-IsOwn canonical_url user call e = ground (arith, e)
list_path-IsOwn artifact user call e = ground (arith, e)
list_path-IsOwn healthz user call e = ground (arith, e)
list_path-IsOwn readyz user call e = ground (arith, e)
list_path-IsOwn mcp user call e = ground (arith, e)
list_path-IsOwn elsewhere user call e = ground (arith, e)

pub routed-IsOwn :
    (method : Method) (deps : Deps) (request : Request) (user : Text) (call : Served)
    → routed method deps request user ≡ value call
    → IsOwn user (purpose_for_route method request.path) call
unfolding post_route
routed-IsOwn post deps request user call e =
    let b0 =
      value-bound
        (ensured (same_user (string_of request.body.user_id) user) principal_object_mismatch) _ call
        e in
    let b1 =
      value-bound
        (guard_write (is_ingest_write request.path) deps.tombstones user
          (str request.body.session_id))
        _ call b0.1.1 in
    switch_path-IsOwn request.path user request.body call b1.1.1
routed-IsOwn get_method deps request user call e = list_path-IsOwn request.path user call e
routed-IsOwn other_method deps request user call e = ground (arith, e)

principal-named :
    (purpose : Option Purpose) (used : Purpose) (sub : Option Text) (user : Text)
    → purpose ≡ some used
    → principal purpose sub ≡ value user
    → (sub ≡ some user) × (is_empty_text user ≡ false)
principal-named none used sub user routes e = ground (arith, routes)
principal-named (some p) used sub user routes e = nonempty-some sub user (or_throw-value _ _ _ e)

enforced-Admitted :
    (deps : Deps) (request : Request) (claims : CapabilityClaims) (purpose : Option Purpose)
    (used : Purpose) (found : Option GrantClaims)
    → purpose ≡ some used
    → enforce_route_purpose deps request claims purpose ≡ value found
    → Admitted deps request claims used false found
enforced-Admitted deps request claims none used found routes e = ground (arith, routes)
enforced-Admitted deps request claims (some p) used found routes e =
    checked_grant-Admitted deps request claims used false found
      (subst (λ o. enforce_route_purpose deps request claims o ≡ value found) routes e)

-- Whose request a call of the store is.
pub record IsAuthorized (deps : Deps) (request : Request) (owner : Text) (call : Served)
    : Type 0 where
  pub claims : CapabilityClaims
  pub bearer : IsBearer deps request claims
  pub owned : string_of bearer.payload.sub ≡ some owner
  pub named : is_empty_text owner ≡ false
  pub found : Option GrantClaims
  pub admitted : Admitted deps request claims (use_of call) false found

store_route-IsAuthorized :
    (deps : Deps) (request : Request) (owner : Text) (call : Served)
    → store_route deps request ≡ value call
    → owner_of call ≡ some owner
    → IsAuthorized deps request owner call
unfolding store_route
store_route-IsAuthorized deps request owner call e owns =
    let route = purpose_for_route request.method request.path in
    let b0 = value-bound (authed deps request) _ call e in
    let claims = b0.0 in
    let b1 = value-bound (ensured deps.store_live vault_offline) _ call b0.1.1 in
    let b2 = value-bound (enforce_route_purpose deps request claims route) _ call b1.1.1 in
    let b3 = value-bound (principal route claims.sub) _ call b2.1.1 in
    let own = routed-IsOwn request.method deps request b3.0 call b3.1.1 in
    let named = principal-named route (use_of call) claims.sub b3.0 own.1 b3.1.0 in
    let bearer = authed-IsBearer deps request claims b0.1.0 in
    let same : b3.0 ≡ owner = ap or_empty (sym own.0 ∙ owns) in
    record {
      claims = claims;
      bearer = bearer;
      owned = bearer.is_token.subject ∙ (named.0 ∙ ap some same);
      named = subst (λ t. is_empty_text t ≡ false) same named.1;
      found = b2.0;
      admitted = enforced-Admitted deps request claims route (use_of call) b2.0 own.1 b2.1.0;
    }

pub probe-has_no_owner :
    (method : Method) (path : Route) (deps : Deps) (call : Served)
    → probe method path deps ≡ some call
    → owner_of call ≡ none
probe-has_no_owner get_method healthz deps call e =
    ap (λ o. elim o [ none ↦ none | some c ↦ owner_of c ]) (sym e)
probe-has_no_owner get_method readyz deps call e =
    ap (λ o. elim o [ none ↦ none | some c ↦ owner_of c ]) (sym e)
probe-has_no_owner _ _ deps call e = ground (arith, e)

-- A request that is handed on to the store is one of a token that was signed and verified, and acts on the
-- objects of that token's own subject, which is not empty; the token was verified again as a grant of the
-- route's purpose, for the fortress's own org, or is one from before the grants, while none is required.
pub fetch-IsAuthorized :
    (deps : Deps) (request : Request) (owner : Text) (call : Served)
    → fetch deps request ≡ value call
    → owner_of call ≡ some owner
    → IsAuthorized deps request owner call
unfolding mcp_route
fetch-IsAuthorized deps request owner call e owns = elim (fetch-routes deps request call e) [
  | inl probed ↦
      let nobody : owner_of call ≡ none =
        probe-has_no_owner request.method request.path deps call probed in
      ground (arith, nobody, owns)
  | inr further ↦ elim further [
    | inl at ↦
        let b0 = value-bound (authed deps request) _ call at in
        let b1 = value-bound (checked_grant deps request b0.0 read true) _ call b0.1.1 in
        let nobody : owner_of call ≡ none = ap owner_of (sym (value-inj _ _ b1.1.1)) in
        ground (arith, nobody, owns)
    | inr at ↦ store_route-IsAuthorized deps request owner call at owns
  ]
]
