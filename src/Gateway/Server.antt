-- ===== src/Gateway/Server.antt =====
-- src/gateway/server.ts: what the gateway's `fetch` does with a request up to the call of a handler, and
-- the tombstones of src/ingest/delete.ts that it asks about.
use hx_fortress.Prelude.{
  Bool, true, false, ◌&&◌, not, Option, none, some, List, [], ◌∷◌, ◌++◌, nat_beq, if◌then◌else◌,
  nat_eq, any, Text, codes, text_beq, text_eq, Try, value, thrown, ◌>>=◌, or_throw,
}
use hx_fortress.Console.Migration.{SessionKey}
use hx_fortress.Gateway.{
  Json, Payload, Purpose, ingest, read, CapabilityClaims, GrantClaims, TokenError, string_of,
  is_empty_text, is_v2_claims, known_org, verify_capability_token, verify_grant,
}

pub data Method : Type 0 where
  post get_method other_method : Method

-- The paths that the source compares with.
pub data Route : Type 0 where
  healthz readyz mcp append_url commit agent_append_url agent_commit canonical_url artifact sessions
        elsewhere :
      Route

pub record Body : Type 0 where
  pub user_id : Json
  pub family : Json
  pub session_id : Json
  pub agent_id : Json
  pub chunk_id : Json
  pub name : Json
  pub replace : Bool

-- A request, with the token that `bearerToken` reads from its header.
pub record Request : Type 0 where
  pub method : Method
  pub path : Route
  pub token : Option Text
  pub body : Body

-- What a session was deleted as: its user, its family, and its id without a lane.
pub record Tombstone : Type 0 where
  pub user : Text
  pub family : Text
  pub base : Text

-- What a request finds. The key and the own org are read twice, by `authed` and by the gate of the grant,
-- and may change between. `verify` is the verification of a signature and an expiry. `tombstones` is none
-- where Postgres is not there, and its inner `none` a query that fails.
pub record Deps : Type 0 where
  pub signing_key : Option Text
  pub own_org : Option Text
  pub gate_key : Option Text
  pub gate_org : Option Text
  pub verify : Text → Text → Option Payload
  pub enforcing : Bool
  pub store_live : Bool
  pub postgres_ready : Bool
  pub tombstones : Option (Option (List Tombstone))

pub data Refusal : Type 0 where
  unauthorized vault_offline grant_invalid grant_required principal_required : Refusal
  principal_object_mismatch session_deleted internal_error not_found : Refusal

-- What a request is answered with, or handed on to.
pub data Served : Type 0 where
  healthy : Served
  readiness : Bool → Served
  mcp_call : Option GrantClaims → Served
  sign_upload : SessionKey → Text → Served
  append_chunk : SessionKey → Text → Bool → Served
  sign_download : SessionKey → Served
  read_artifact : SessionKey → Text → Served
  list_metadata : Text → Served

abbrev pub ensured : Bool → Refusal → Try Refusal (Unit {0})
ensured true e = value _
ensured false e = thrown e

-- A truthy string.
abbrev pub nonempty : Option Text → Option Text
nonempty none = none
nonempty (some t) = if is_empty_text t then none else some t

-- A call whose every exception is caught and answered with one refusal.
abbrev pub caught {ℓ} : {A : Type ℓ} → Try TokenError A → Refusal → Try Refusal A
caught (value a) e = value a
caught (thrown why) e = thrown e

unfoldable pub authed : Deps → Request → Try Refusal CapabilityClaims
authed deps request = do
  token ← or_throw (nonempty request.token) unauthorized
  key ← or_throw (nonempty deps.signing_key) unauthorized
  caught (verify_capability_token deps.enforcing deps.own_org (deps.verify token key)) unauthorized

abbrev pub purpose_of_post : Route → Option Purpose
purpose_of_post append_url = some ingest
purpose_of_post commit = some ingest
purpose_of_post agent_append_url = some ingest
purpose_of_post agent_commit = some ingest
purpose_of_post canonical_url = some read
purpose_of_post artifact = some read
purpose_of_post _ = none

abbrev pub purpose_of_get : Route → Option Purpose
purpose_of_get sessions = some read
purpose_of_get _ = none

abbrev pub purpose_for_route : Method → Route → Option Purpose
purpose_for_route post path = purpose_of_post path
purpose_for_route get_method path = purpose_of_get path
purpose_for_route other_method path = none

-- The grant of the bearer, verified again.
unfoldable pub grant_of : Deps → Request → Purpose → Bool → Try Refusal GrantClaims
grant_of deps request purpose require_scope = do
  key ← or_throw (nonempty deps.gate_key) unauthorized
  org ← or_throw (known_org deps.gate_org) unauthorized
  token ← or_throw (nonempty request.token) unauthorized
  caught (verify_grant org purpose require_scope (deps.verify token key)) grant_invalid

abbrev pub granted : Try Refusal GrantClaims → Try Refusal (Option GrantClaims)
granted (value g) = value (some g)
granted (thrown e) = thrown e

-- A token of version 2 is verified as a grant, and another is let through while none is required:
-- `enforceRoutePurpose` with no scope required, and `mcpGrant` with one.
unfoldable pub checked_grant :
    Deps → Request → CapabilityClaims → Purpose → Bool → Try Refusal (Option GrantClaims)
checked_grant deps request claims purpose require_scope =
    if is_v2_claims claims
    then granted (grant_of deps request purpose require_scope)
    else if deps.enforcing
    then thrown grant_required
    else value none

abbrev pub enforce_route_purpose :
    Deps → Request → CapabilityClaims → Option Purpose → Try Refusal (Option GrantClaims)
enforce_route_purpose deps request claims none = value none
enforce_route_purpose deps request claims (some purpose) =
    checked_grant deps request claims purpose false

abbrev pub or_empty : Option Text → Text
or_empty none = []
or_empty (some t) = t

-- The owner of the objects of a route that has any: the token's principal, which is not empty.
abbrev pub principal : Option Purpose → Option Text → Try Refusal Text
principal none sub = value (or_empty sub)
principal (some purpose) sub = or_throw (nonempty sub) principal_required

-- `str`: what is not a string is the empty one.
abbrev pub str : Json → Text
str member = or_empty (string_of member)

-- A user id in the body that is not the principal's is refused, and none is fine.
abbrev pub same_user : Option Text → Text → Bool
same_user none user = true
same_user (some other) user = text_beq other user

-- What stands before the first `:`.
unfoldable pub base_session_id : Text → Text
base_session_id [] = []
base_session_id (c ∷ id) = let rest = base_session_id id in if nat_beq c 58 then [] else c ∷ rest

abbrev pub is_of : Text → Text → Tombstone → Bool
is_of user base stone = text_beq stone.user user && text_beq stone.base base

unfoldable pub is_session_deleted : List Tombstone → Text → Text → Bool
is_session_deleted stones user id = any (is_of user (base_session_id id)) stones

abbrev pub stone_beq : Tombstone → Tombstone → Bool
stone_beq s t = text_beq s.user t.user && (text_beq s.family t.family && text_beq s.base t.base)

abbrev pub stone_of : SessionKey → Tombstone
stone_of key = record {
  user = key.user_id;
  family = key.family;
  base = base_session_id key.session_id;
}

-- The insert of `markSessionDeleted`, which does nothing where the row is there.
unfoldable pub mark_session_deleted : SessionKey → List Tombstone → List Tombstone
mark_session_deleted key [] = stone_of key ∷ []
mark_session_deleted key (stone ∷ stones) =
    let rest = mark_session_deleted key stones in
    if stone_beq (stone_of key) stone then stone ∷ stones else stone ∷ rest

abbrev pub is_ingest_write : Route → Bool
is_ingest_write append_url = true
is_ingest_write commit = true
is_ingest_write agent_append_url = true
is_ingest_write agent_commit = true
is_ingest_write _ = false

-- The refusal of a write to a deleted session, where Postgres can be asked.
abbrev pub not_deleted : Option (Option (List Tombstone)) → Text → Text → Try Refusal (Unit {0})
not_deleted none user id = value _
not_deleted (some none) user id = if is_empty_text id then value _ else thrown internal_error
not_deleted (some (some stones)) user id =
    if is_empty_text id
    then value _
    else ensured (not (is_session_deleted stones user id)) session_deleted

abbrev pub guard_write :
    Bool → Option (Option (List Tombstone)) → Text → Text → Try Refusal (Unit {0})
guard_write false stones user id = value _
guard_write true stones user id = not_deleted stones user id

-- `keyOf` and `agentKeyOf` of the handlers, on what the server gives them.
abbrev pub key_of : Text → Body → SessionKey
key_of user body = record {
  user_id = user;
  family = str body.family;
  session_id = str body.session_id;
}

abbrev pub agent_key_of : Text → Body → SessionKey
agent_key_of user body = record {
  user_id = user;
  family = str body.family;
  session_id = str body.session_id ++ (codes ":a:" ++ str body.agent_id);
}

-- The switch on the path of a POST, up to the handler. Before it calls its handler a commit reads the staged
-- chunk, and it is answered without an append where every record of the chunk is indexed already.
abbrev pub switch_path : Route → Text → Body → Try Refusal Served
switch_path append_url user body = value (sign_upload (key_of user body) (str body.chunk_id))
switch_path commit user body =
    value (append_chunk (key_of user body) (str body.chunk_id) body.replace)
switch_path agent_append_url user body =
    value (sign_upload (agent_key_of user body) (str body.chunk_id))
switch_path agent_commit user body =
    value (append_chunk (agent_key_of user body) (str body.chunk_id) body.replace)
switch_path canonical_url user body = value (sign_download (key_of user body))
switch_path artifact user body = value (read_artifact (key_of user body) (str body.name))
switch_path _ user body = thrown not_found

abbrev pub list_path : Route → Text → Try Refusal Served
list_path sessions user = value (list_metadata user)
list_path _ user = thrown not_found

unfoldable pub post_route : Deps → Request → Text → Try Refusal Served
post_route deps request user = do
  _ ← ensured (same_user (string_of request.body.user_id) user) principal_object_mismatch
  _ ← guard_write (is_ingest_write request.path) deps.tombstones user (str request.body.session_id)
  switch_path request.path user request.body

abbrev pub routed : Method → Deps → Request → Text → Try Refusal Served
routed post deps request user = post_route deps request user
routed get_method deps request user = list_path request.path user
routed other_method deps request user = thrown not_found

unfoldable pub store_route : Deps → Request → Try Refusal Served
store_route deps request = do
  claims ← authed deps request
  _ ← ensured deps.store_live vault_offline
  _ ← enforce_route_purpose deps request claims (purpose_for_route request.method request.path)
  user ← principal (purpose_for_route request.method request.path) claims.sub
  routed request.method deps request user

-- The route of the MCP server, which does not ask for the store.
unfoldable pub mcp_route : Deps → Request → Try Refusal Served
mcp_route deps request = do
  claims ← authed deps request
  grant ← checked_grant deps request claims read true
  value (mcp_call grant)

-- The probes of liveness and of readiness.
abbrev pub probe : Method → Route → Deps → Option Served
probe get_method healthz deps = some healthy
probe get_method readyz deps = some (readiness (deps.store_live && deps.postgres_ready))
probe _ _ deps = none

abbrev pub is_mcp : Route → Bool
is_mcp mcp = true
is_mcp _ = false

abbrev pub answered : Option Served → Deps → Request → Try Refusal Served
answered (some reply) deps request = value reply
answered none deps request =
    if is_mcp request.path then mcp_route deps request else store_route deps request

-- `fetch`.
unfoldable pub fetch : Deps → Request → Try Refusal Served
fetch deps request = answered (probe request.method request.path deps) deps request
