-- ===== src/Gateway.antt =====
-- src/gateway/capability-token.ts: the claims of a token and of a grant, once their signature and expiry
-- are verified by the library that the source calls.
pub mod Server
pub mod Grants
pub mod Gates
pub mod Authorized
pub mod Deleted
pub mod Scoped
mod Tests
use hx_fortress.Prelude.{
  ℕ, zero, suc, ◌+◌, ◌-◌, ◌*◌, ◌/◌, ◌%◌, ◌≤◌, ◌<◌, min, max, ◌≡◌, refl, sym, ap, subst, ◌∙◌, ◌≢◌,
  ◌↔◌, ◌⊎◌, inl, inr, Bool, true, false, ◌&&◌, ◌||◌, not, Option, none, some, List, [], ◌∷◌, ◌++◌,
  map, arith, ltb, leb, nat_beq, if◌then◌else◌, Bool-cases, Option-cases, Eq, ◌==◌, nat_eq,
  beq_refl, beq_ne, length, keep_if, any, find, All, Among, Among-append, Among-last, Among-keep_if,
  keep_if-Among, Text, codes, text_beq, text_beq_iff, text_eq, get, set, delete, IsMap, prune,
  pruned, get-set, get-set_self, get-set_ne, get-delete, Try, value, thrown, ◌>>=◌, or_throw,
}

-- What a member of a payload may be.
pub data Json : Type 0 where
  missing other : Json
  text : Text → Json
  number : ℕ → Json

pub record Payload : Type 0 where
  pub org : Json
  pub repo : Json
  pub project : Json
  pub device_id : Json
  pub sub : Json
  pub aud : Json
  pub purpose : Json
  pub scope_hash : Json
  pub v : Json

pub data Purpose : Type 0 where
  ingest read : Purpose

pub record CapabilityClaims : Type 0 where
  pub org : Text
  pub repo : Text
  pub project : Option Text
  pub device_id : Option Text
  pub sub : Option Text
  pub aud : Option Text
  pub purpose : Option Purpose
  pub scope_hash : Option Text
  pub v : Option ℕ

pub record GrantClaims : Type 0 where
  pub v : ℕ
  pub purpose : Purpose
  pub org : Text
  pub aud : Text
  pub sub : Text
  pub scope_hash : Option Text
  pub repo : Option Text
  pub project : Option Text
  pub device_id : Option Text

pub data TokenError : Type 0 where
  bad_signature missing_org_or_repo purpose_not_valid_here org_unknown audience_mismatch :
      TokenError
  version_unsupported purpose_mismatch org_mismatch missing_sub missing_scope_hash : TokenError

-- `typeof x === "string" ? x : undefined`, and for a number.
abbrev pub string_of : Json → Option Text
string_of (text t) = some t
string_of missing = none
string_of other = none
string_of (number n) = none

abbrev pub number_of : Json → Option ℕ
number_of (number n) = some n
number_of missing = none
number_of other = none
number_of (text t) = none

abbrev pub purpose_beq : Purpose → Purpose → Bool
purpose_beq ingest ingest = true
purpose_beq read read = true
purpose_beq ingest read = false
purpose_beq read ingest = false

abbrev pub purpose_named : Text → Option Purpose
purpose_named t =
    if text_beq t (codes "ingest")
    then some ingest
    else if text_beq t (codes "read")
    then some read
    else none

-- A purpose that is there and is neither is refused.
abbrev pub purpose_of : Json → Try TokenError (Option Purpose)
purpose_of missing = value none
purpose_of other = thrown purpose_not_valid_here
purpose_of (number n) = thrown purpose_not_valid_here
purpose_of (text t) = elim (purpose_named t) [
  | none ↦ thrown purpose_not_valid_here
  | some p ↦ value (some p)
]

abbrev pub is_some_text : Option Text → Bool
is_some_text none = false
is_some_text (some t) = true

abbrev pub is_text : Option Text → Text → Bool
is_text none t = false
is_text (some s) t = text_beq s t

-- `v === 2`.
abbrev pub is_two : Option ℕ → Bool
is_two none = false
is_two (some n) = nat_beq n 2

abbrev pub has_purpose : Option Purpose → Bool
has_purpose none = false
has_purpose (some p) = true

unfoldable pub is_v2_claims : CapabilityClaims → Bool
is_v2_claims claims = has_purpose claims.purpose || (is_some_text claims.aud || is_two claims.v)

unfoldable pub claims_of : Payload → Text → Text → Option Purpose → CapabilityClaims
claims_of p org repo purpose = record {
  org = org;
  repo = repo;
  project = string_of p.project;
  device_id = string_of p.device_id;
  sub = string_of p.sub;
  aud = string_of p.aud;
  purpose = purpose;
  scope_hash = string_of p.scope_hash;
  v = number_of p.v;
}

-- An org id that is known: neither null nor empty.
abbrev pub known_org : Option Text → Option Text
known_org none = none
known_org (some []) = none
known_org (some (c ∷ org)) = some (c ∷ org)

abbrev pub bound_to : Option Text → CapabilityClaims → Try TokenError CapabilityClaims
bound_to none claims = thrown org_unknown
bound_to (some expected) claims =
    if is_text claims.aud expected && text_beq claims.org expected
    then value claims
    else thrown audience_mismatch

-- The binding of a token to this fortress's org, but for a v1 token in the compatibility window.
unfoldable pub bind_claims : Bool → Option Text → CapabilityClaims → Try TokenError CapabilityClaims
bind_claims enforcing expected claims =
    if not (is_some_text claims.aud) && (not (has_purpose claims.purpose) && not enforcing)
    then value claims
    else bound_to (known_org expected) claims

-- `verifyCapabilityToken` of what the signature's verification answers.
unfoldable pub verify_capability_token :
    Bool → Option Text → Option Payload → Try TokenError CapabilityClaims
verify_capability_token enforcing expected verified = do
  p ← or_throw verified bad_signature
  org ← or_throw (string_of p.org) missing_org_or_repo
  repo ← or_throw (string_of p.repo) missing_org_or_repo
  purpose ← purpose_of p.purpose
  bind_claims enforcing expected (claims_of p org repo purpose)

abbrev pub ensure : Bool → TokenError → Try TokenError (Unit {0})
ensure true e = value _
ensure false e = thrown e

abbrev pub purpose_required : Json → Try TokenError Purpose
purpose_required missing = thrown purpose_not_valid_here
purpose_required other = thrown purpose_not_valid_here
purpose_required (number n) = thrown purpose_not_valid_here
purpose_required (text t) = or_throw (purpose_named t) purpose_not_valid_here

abbrev pub is_empty_text : Text → Bool
is_empty_text [] = true
is_empty_text (c ∷ t) = false

-- A scope hash that is there, and not empty.
abbrev pub has_scope : Option Text → Bool
has_scope none = false
has_scope (some t) = not (is_empty_text t)

-- `verifyGrant` of what the signature's verification answers.
unfoldable pub verify_grant : Text → Purpose → Bool → Option Payload → Try TokenError GrantClaims
verify_grant expected wanted require_scope verified = do
  p ← or_throw verified bad_signature
  _ ← ensure (is_two (number_of p.v)) version_unsupported
  purpose ← purpose_required p.purpose
  _ ← ensure (purpose_beq purpose wanted) purpose_mismatch
  org ← or_throw (string_of p.org) org_mismatch
  _ ← ensure (text_beq org expected) org_mismatch
  aud ← or_throw (string_of p.aud) audience_mismatch
  _ ← ensure (text_beq aud expected) audience_mismatch
  sub ← or_throw (string_of p.sub) missing_sub
  _ ← ensure (not (is_empty_text sub)) missing_sub
  _ ←
      ensure (not (purpose_beq wanted read && require_scope) || has_scope (string_of p.scope_hash))
        missing_scope_hash
  value (record {
    v = 2;
    purpose = purpose;
    org = org;
    aud = aud;
    sub = sub;
    scope_hash = string_of p.scope_hash;
    repo = string_of p.repo;
    project = string_of p.project;
    device_id = string_of p.device_id;
  })
