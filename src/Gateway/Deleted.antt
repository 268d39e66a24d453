-- ===== src/Gateway/Deleted.antt =====
-- src/gateway/server.ts: the writes that the tombstones refuse.
use hx_fortress.Prelude.{
  ◌≡◌, refl, sym, ap, subst, ◌∙◌, ◌≢◌, inl, inr, true, false, Option, none, some, List, [], ◌∷◌,
  ◌++◌, arith, nat_beq, if◌then◌else◌, Bool-cases, nat_eq, any, Text, text_beq, text_beq_iff,
  text_eq, value, value-bound, value-inj,
}
use hx_fortress.Console.Migration.{SessionKey}
use hx_fortress.Gateway.{read, string_of, is_empty_text}
use hx_fortress.Gateway.Server.{
  Method, post, get_method, other_method, Route, healthz, readyz, mcp, append_url, commit,
  agent_append_url, agent_commit, canonical_url, artifact, sessions, elsewhere, Body, Request,
  Tombstone, Deps, vault_offline, principal_object_mismatch, Served, sign_upload, append_chunk,
  ensured, authed, purpose_for_route, checked_grant, enforce_route_purpose, principal, str,
  same_user, base_session_id, is_session_deleted, is_ingest_write, guard_write, switch_path,
  list_path, post_route, routed, store_route, mcp_route, probe, fetch, is_of, stone_beq, stone_of,
  mark_session_deleted,
}
use hx_fortress.Gateway.Gates.{fetch-routes}

-- The key that a call writes under, or lets a device write under.
abbrev pub written_key : Served → Option SessionKey
written_key (sign_upload key chunk) = some key
written_key (append_chunk key chunk replace) = some key
written_key _ = none

-- A lane is of the session that its id begins with.
base-lane : (id lane : Text) → base_session_id (id ++ (58 ∷ lane)) ≡ base_session_id id
unfolding base_session_id
base-lane [] lane = refl
base-lane (c ∷ id) lane = ap (λ rest. if nat_beq c 58 then [] else c ∷ rest) (base-lane id lane)

not_deleted-clear :
    (stones : List Tombstone) (user id : Text) (u : Unit {0})
    → guard_write true (some (some stones)) user id ≡ value u
    → is_empty_text id ≡ false
    → is_session_deleted stones user id ≡ false
not_deleted-clear stones user [] u e named = ground (arith, named)
not_deleted-clear stones user (c ∷ id) u e named =
    elim (Bool-cases (is_session_deleted stones user (c ∷ id))) [
      | inl gone ↦ ground (arith, gone, e)
      | inr kept ↦ kept
    ]

-- A write of a POST: the path is one of those that are guarded, and the key is of the user and of the session
-- that the guard looked at.
abbrev IsGuarded : Route → Text → Body → SessionKey → Type 0
IsGuarded path user body key =
    (is_ingest_write path ≡ true)
    × ((key.user_id ≡ user)
        × (base_session_id key.session_id ≡ base_session_id (str body.session_id)))

some-inj : (k l : SessionKey) → some k ≡ some l → k ≡ l
some-inj k l e = ap (λ o. elim o [ none ↦ k | some m ↦ m ]) e

switch_path-IsGuarded :
    (path : Route) (user : Text) (body : Body) (call : Served) (key : SessionKey)
    → switch_path path user body ≡ value call
    → written_key call ≡ some key
    → IsGuarded path user body key
switch_path-IsGuarded append_url user body call key e writes =
    subst (IsGuarded append_url user body)
      (some-inj _ _ (ap written_key (value-inj _ _ e) ∙ writes)) (refl, (refl, refl))
switch_path-IsGuarded commit user body call key e writes =
    subst (IsGuarded commit user body) (some-inj _ _ (ap written_key (value-inj _ _ e) ∙ writes))
      (refl, (refl, refl))
switch_path-IsGuarded agent_append_url user body call key e writes =
    subst (IsGuarded agent_append_url user body)
      (some-inj _ _ (ap written_key (value-inj _ _ e) ∙ writes))
      (refl, (refl, base-lane (str body.session_id) _))
switch_path-IsGuarded agent_commit user body call key e writes =
    subst (IsGuarded agent_commit user body)
      (some-inj _ _ (ap written_key (value-inj _ _ e) ∙ writes))
      (refl, (refl, base-lane (str body.session_id) _))
switch_path-IsGuarded canonical_url user body call key e writes =
    ground (arith, ap written_key (value-inj _ _ e), writes)
switch_path-IsGuarded artifact user body call key e writes =
    ground (arith, ap written_key (value-inj _ _ e), writes)
switch_path-IsGuarded healthz user body call key e writes = ground (arith, e)
switch_path-IsGuarded readyz user body call key e writes = ground (arith, e)
switch_path-IsGuarded mcp user body call key e writes = ground (arith, e)
switch_path-IsGuarded sessions user body call key e writes = ground (arith, e)
switch_path-IsGuarded elsewhere user body call key e writes = ground (arith, e)

list_path-writes_nothing :
    (path : Route) (user : Text) (call : Served)
    → list_path path user ≡ value call
    → written_key call ≡ none
list_path-writes_nothing sessions user call e = ap written_key (sym (value-inj _ _ e))
list_path-writes_nothing _ user call e = ground (arith, e)

routed-not_deleted :
    (method : Method) (deps : Deps) (request : Request) (user : Text) (call : Served)
    (key : SessionKey) (stones : List Tombstone)
    → routed method deps request user ≡ value call
    → written_key call ≡ some key
    → deps.tombstones ≡ some (some stones)
    → is_empty_text (str request.body.session_id) ≡ false
    → is_session_deleted stones key.user_id key.session_id ≡ false
unfolding post_route is_session_deleted
routed-not_deleted post deps request user call key stones e writes asked named =
    let b0 =
      value-bound
        (ensured (same_user (string_of request.body.user_id) user) principal_object_mismatch) _ call
        e in
    let b1 =
      value-bound
        (guard_write (is_ingest_write request.path) deps.tombstones user
          (str request.body.session_id))
        _ call b0.1.1 in
    let guarded = switch_path-IsGuarded request.path user request.body call key b1.1.1 writes in
    let clear =
      not_deleted-clear stones user (str request.body.session_id) b1.0
        (subst (λ t. guard_write true t user (str request.body.session_id) ≡ value b1.0) asked
          (subst
            (λ w. guard_write w deps.tombstones user (str request.body.session_id) ≡ value b1.0)
            guarded.0 b1.1.0))
        named in
    subst (λ u. any (is_of u (base_session_id key.session_id)) stones ≡ false) (sym guarded.1.0)
      (subst (λ b. any (is_of user b) stones ≡ false) (sym guarded.1.1) clear)
routed-not_deleted get_method deps request user call key stones e writes asked named =
    ground (arith, list_path-writes_nothing request.path user call e, writes)
routed-not_deleted other_method deps request user call key stones e writes asked named =
    ground (arith, e)

probe-writes_nothing :
    (method : Method) (path : Route) (deps : Deps) (call : Served)
    → probe method path deps ≡ some call
    → written_key call ≡ none
probe-writes_nothing get_method healthz deps call e =
    ap (λ o. elim o [ none ↦ none | some c ↦ written_key c ]) (sym e)
probe-writes_nothing get_method readyz deps call e =
    ap (λ o. elim o [ none ↦ none | some c ↦ written_key c ]) (sym e)
probe-writes_nothing _ _ deps call e = ground (arith, e)

-- Where the tombstones can be read, no write of a session that has one is handed on, under whatever family
-- it comes and be it for a lane of that session; the body must name a session.
pub fetch-not_deleted :
    (deps : Deps) (request : Request) (call : Served) (key : SessionKey) (stones : List Tombstone)
    → fetch deps request ≡ value call
    → written_key call ≡ some key
    → deps.tombstones ≡ some (some stones)
    → is_empty_text (str request.body.session_id) ≡ false
    → is_session_deleted stones key.user_id key.session_id ≡ false
unfolding store_route mcp_route
fetch-not_deleted deps request call key stones e writes asked named =
    elim (fetch-routes deps request call e) [
      | inl probed ↦
          ground (arith, probe-writes_nothing request.method request.path deps call probed, writes)
      | inr further ↦ elim further [
        | inl at ↦
            let b0 = value-bound (authed deps request) _ call at in
            let b1 = value-bound (checked_grant deps request b0.0 read true) _ call b0.1.1 in
            let nothing : written_key call ≡ none = ap written_key (sym (value-inj _ _ b1.1.1)) in
            ground (arith, nothing, writes)
        | inr at ↦
            let route = purpose_for_route request.method request.path in
            let b0 = value-bound (authed deps request) _ call at in
            let b1 = value-bound (ensured deps.store_live vault_offline) _ call b0.1.1 in
            let b2 = value-bound (enforce_route_purpose deps request b0.0 route) _ call b1.1.1 in
            let b3 = value-bound (principal route b0.0.sub) _ call b2.1.1 in
            routed-not_deleted request.method deps request b3.0 call key stones b3.1.1 writes asked
              named
      ]
    ]

-- A session that is marked is deleted for every id of it, under any family.
mark-is_deleted :
    (key : SessionKey) (stones : List Tombstone)
    → any (is_of key.user_id (base_session_id key.session_id)) (mark_session_deleted key stones)
      ≡ true
unfolding mark_session_deleted any
mark-is_deleted key [] =
    let same_user : text_beq key.user_id key.user_id ≡ true = (text_beq_iff _ _).1 refl in
    let same_base : text_beq (base_session_id key.session_id) (base_session_id key.session_id)
        ≡ true =
      (text_beq_iff _ _).1 refl in
    ground (arith, same_user, same_base)
mark-is_deleted key (stone ∷ stones) = elim (Bool-cases (stone_beq (stone_of key) stone)) [
  | inl there ↦
      let user : key.user_id ≡ stone.user = (text_beq_iff _ _).0 (ground (arith, there)) in
      let base : base_session_id key.session_id ≡ stone.base =
        (text_beq_iff _ _).0 (ground (arith, there)) in
      let same_user : text_beq stone.user key.user_id ≡ true = (text_beq_iff _ _).1 (sym user) in
      let same_base : text_beq stone.base (base_session_id key.session_id) ≡ true =
        (text_beq_iff _ _).1 (sym base) in
      ground (arith, there, same_user, same_base)
  | inr other_row ↦ ground (arith, other_row, mark-is_deleted key stones)
]

-- Once a session is marked deleted, where the tombstones can be read, no write to it is handed on: not under
-- another family, not for a lane, and whatever was marked before it; the body must name a session.
pub mark-not_written :
    (deps : Deps) (request : Request) (call : Served) (key gone : SessionKey)
    (stones : List Tombstone)
    → fetch deps request ≡ value call
    → written_key call ≡ some key
    → deps.tombstones ≡ some (some (mark_session_deleted gone stones))
    → is_empty_text (str request.body.session_id) ≡ false
    → key.user_id ≡ gone.user_id
    → base_session_id key.session_id ≢ base_session_id gone.session_id
unfolding is_session_deleted
mark-not_written deps request call key gone stones e writes asked named user same =
    let clear =
      fetch-not_deleted deps request call key (mark_session_deleted gone stones) e writes asked
        named in
    let marked = mark-is_deleted gone stones in
    let here : any (is_of gone.user_id (base_session_id gone.session_id))
          (mark_session_deleted gone stones)
        ≡ false =
      subst
        (λ u.
          any (is_of u (base_session_id gone.session_id)) (mark_session_deleted gone stones)
          ≡ false)
        user
        (subst (λ b. any (is_of key.user_id b) (mark_session_deleted gone stones) ≡ false) same
          clear) in
    ground (arith, marked, here)
