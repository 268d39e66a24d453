-- ===== src/Gateway/Tests.antt =====
-- Concrete tokens and requests, and the theorems at them.
use hx_fortress.Prelude.{
  ◌≢◌, ◌≡◌, refl, true, false, Option, none, some, [], ◌∷◌, if◌then◌else◌, nat_eq, any, Text, codes,
  text_beq, text_eq, value, thrown,
}
use hx_fortress.Console.Migration.{SessionKey}
use hx_fortress.Gateway.{
  missing, number, text, Payload, read, GrantClaims, is_v2_claims, claims_of, bind_claims,
  verify_capability_token, verify_grant,
}
use hx_fortress.Gateway.Server.{
  mark_session_deleted, post, Route, mcp, commit, agent_commit, Request, Deps, unauthorized,
  grant_invalid, session_deleted, Served, mcp_call, append_chunk, authed, grant_of, checked_grant,
  base_session_id, is_session_deleted, post_route, store_route, mcp_route, fetch,
}
use hx_fortress.Gateway.Authorized.{IsAuthorized, fetch-IsAuthorized}
use hx_fortress.Gateway.Deleted.{mark-not_written}
use hx_fortress.Gateway.Scoped.{IsReader, fetch-IsReader}

-- A grant for uploads of user `u` to the org `o`, and one for scoped reads.
abbrev upload_payload : Payload
upload_payload = record {
  org = text (codes "o");
  repo = text (codes "r");
  project = missing;
  device_id = missing;
  sub = text (codes "u");
  aud = text (codes "o");
  purpose = text (codes "ingest");
  scope_hash = missing;
  v = number 2;
}

abbrev read_payload : Payload
read_payload = record upload_payload {
  purpose = text (codes "read");
  scope_hash = text (codes "h");
}

abbrev legacy_payload : Payload
legacy_payload = record upload_payload { aud = missing; purpose = missing; v = missing }

-- The signatures that verify.
abbrev payload_in : Text → Option Payload
payload_in token =
    if text_beq token (codes "up")
    then some upload_payload
    else if text_beq token (codes "rd")
    then some read_payload
    else if text_beq token (codes "v1")
    then some legacy_payload
    else none

abbrev fortress : Deps
fortress = record {
  signing_key = some (codes "k");
  own_org = some (codes "o");
  gate_key = some (codes "k");
  gate_org = some (codes "o");
  verify = λ token key. payload_in token;
  enforcing = true;
  store_live = true;
  postgres_ready = true;
  tombstones =
      some (some (record { user = codes "u"; family = codes "f"; base = codes "gone" } ∷ []));
}

abbrev upload : Text → Route → Text → Request
upload token path id = record {
  method = post;
  path = path;
  token = some token;
  body = record {
    user_id = missing;
    family = text (codes "f");
    session_id = text id;
    agent_id = text (codes "a");
    chunk_id = text (codes "c");
    name = missing;
    replace = false;
  };
}

abbrev lane_key : SessionKey
lane_key = record { user_id = codes "u"; family = codes "f"; session_id = codes "s:a:a" }

abbrev lane_commit : Served
lane_commit = append_chunk lane_key (codes "c") false

lane_commit-served :
    fetch fortress (upload (codes "up") agent_commit (codes "s")) ≡ value lane_commit
unfolding fetch store_route authed verify_capability_token claims_of bind_claims checked_grant
    is_v2_claims grant_of verify_grant post_route is_session_deleted base_session_id text_beq any
lane_commit-served = refl

fetch-IsAuthorized_example :
    IsAuthorized fortress (upload (codes "up") agent_commit (codes "s")) (codes "u") lane_commit
fetch-IsAuthorized_example =
    fetch-IsAuthorized fortress (upload (codes "up") agent_commit (codes "s")) (codes "u")
      lane_commit lane_commit-served refl

abbrev gone_key : SessionKey
gone_key = record { user_id = codes "u"; family = codes "f"; session_id = codes "gone:a:x" }

fortress-marked : fortress.tombstones ≡ some (some (mark_session_deleted gone_key []))
unfolding mark_session_deleted base_session_id
fortress-marked = refl

mark-not_written_example : base_session_id lane_key.session_id ≢ base_session_id gone_key.session_id
mark-not_written_example =
    mark-not_written fortress (upload (codes "up") agent_commit (codes "s")) lane_commit lane_key
      gone_key [] lane_commit-served refl fortress-marked refl refl

-- The write of a deleted session, the grant of another purpose, and a token from before the grants.
refused-examples :
    (fetch fortress (upload (codes "up") commit (codes "gone")) ≡ thrown session_deleted)
    × ((fetch fortress (upload (codes "up") commit (codes "gone:a:x")) ≡ thrown session_deleted)
        × ((fetch fortress (upload (codes "rd") commit (codes "s")) ≡ thrown grant_invalid)
            × (fetch fortress (upload (codes "v1") commit (codes "s")) ≡ thrown unauthorized)))
unfolding fetch store_route authed verify_capability_token claims_of bind_claims checked_grant
    is_v2_claims grant_of verify_grant post_route is_session_deleted base_session_id text_beq any
refused-examples = (refl, (refl, (refl, refl)))

abbrev reader_grant : GrantClaims
reader_grant = record {
  purpose = read;
  org = codes "o";
  aud = codes "o";
  sub = codes "u";
  scope_hash = some (codes "h");
  v = 2;
  repo = some (codes "r");
  project = none;
  device_id = none;
}

reader-served : fetch fortress (upload (codes "rd") mcp []) ≡ value (mcp_call (some reader_grant))
unfolding fetch mcp_route authed verify_capability_token claims_of bind_claims checked_grant
    is_v2_claims grant_of verify_grant text_beq
reader-served = refl

fetch-IsReader_example : IsReader fortress (upload (codes "rd") mcp []) (some reader_grant)
fetch-IsReader_example =
    fetch-IsReader fortress (upload (codes "rd") mcp []) (some reader_grant) reader-served
