-- ===== src/Gateway/Scoped.antt =====
-- src/gateway/server.ts: what has been verified of a request that reaches the MCP tools.
use hx_fortress.Prelude.{
  ◌≡◌, sym, ap, subst, inl, inr, Bool, true, false, Option, none, some, arith, nat_eq, text_eq,
  value, value-bound, value-inj,
}
use hx_fortress.Gateway.{read, CapabilityClaims, GrantClaims}
use hx_fortress.Gateway.Server.{
  Method, get_method, Route, healthz, readyz, Request, Deps, vault_offline, Served, mcp_call,
  ensured, authed, purpose_for_route, checked_grant, enforce_route_purpose, principal, store_route,
  mcp_route, probe, fetch,
}
use hx_fortress.Gateway.Gates.{
  IsBearer, Admitted, authed-IsBearer, checked_grant-Admitted, fetch-routes,
}
use hx_fortress.Gateway.Authorized.{IsOwn, routed-IsOwn}

-- A payload that says who its reader is, and the scope where it is a grant.
pub record IsReader (deps : Deps) (request : Request) (found : Option GrantClaims) : Type 0 where
  pub claims : CapabilityClaims
  pub bearer : IsBearer deps request claims
  pub admitted : Admitted deps request claims read true found

is_for_mcp : Served → Bool
is_for_mcp (mcp_call grant) = true
is_for_mcp _ = false

probe-not_mcp :
    (method : Method) (path : Route) (deps : Deps) (call : Served)
    → probe method path deps ≡ some call
    → is_for_mcp call ≡ false
unfolding is_for_mcp
probe-not_mcp get_method healthz deps call e =
    ap (λ o. elim o [ none ↦ false | some c ↦ is_for_mcp c ]) (sym e)
probe-not_mcp get_method readyz deps call e =
    ap (λ o. elim o [ none ↦ false | some c ↦ is_for_mcp c ]) (sym e)
probe-not_mcp _ _ deps call e = ground (arith, e)

grant_given : Option GrantClaims → Served → Option GrantClaims
grant_given other (mcp_call grant) = grant
grant_given other _ = other

-- A request that reaches the MCP tools is one of a token that was signed and verified, with a grant that is
-- for reading, of the fortress's own org, and commits to a scope; or with no grant and a token from before
-- the grants, while none is required.
pub fetch-IsReader :
    (deps : Deps) (request : Request) (found : Option GrantClaims)
    → fetch deps request ≡ value (mcp_call found)
    → IsReader deps request found
unfolding store_route mcp_route is_for_mcp grant_given
fetch-IsReader deps request found e = elim (fetch-routes deps request (mcp_call found) e) [
  | inl probed ↦
      ground (arith, probe-not_mcp request.method request.path deps (mcp_call found) probed)
  | inr further ↦ elim further [
    | inl at ↦
        let b0 = value-bound (authed deps request) _ (mcp_call found) at in
        let b1 =
          value-bound (checked_grant deps request b0.0 read true) _ (mcp_call found) b0.1.1 in
        let same : b1.0 ≡ found = ap (grant_given found) (value-inj _ _ b1.1.1) in
        record {
          claims = b0.0;
          bearer = authed-IsBearer deps request b0.0 b0.1.0;
          admitted =
              subst (Admitted deps request b0.0 read true) same
                (checked_grant-Admitted deps request b0.0 read true b1.0 b1.1.0);
        }
    | inr at ↦
        let route = purpose_for_route request.method request.path in
        let b0 = value-bound (authed deps request) _ (mcp_call found) at in
        let b1 = value-bound (ensured deps.store_live vault_offline) _ (mcp_call found) b0.1.1 in
        let b2 =
          value-bound (enforce_route_purpose deps request b0.0 route) _ (mcp_call found) b1.1.1 in
        let b3 = value-bound (principal route b0.0.sub) _ (mcp_call found) b2.1.1 in
        let own : IsOwn b3.0 route (mcp_call found) =
          routed-IsOwn request.method deps request b3.0 (mcp_call found) b3.1.1 in
        ground (arith, own.0)
  ]
]
