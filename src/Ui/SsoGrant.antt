-- ===== src/Ui/SsoGrant.antt =====
-- src/ui/sso-grant.ts: the verifier of the workbench's one-click grant, the set of grants that were
-- used, and the entry records. The clock and the random id are arguments; the calls of `jose` are a
-- parameter, with what its documentation says of them.
pub mod Verdicts
pub mod Consumed
pub mod Entries
mod Tests
use hx_fortress.Prelude.{
  ℕ, zero, suc, ◌+◌, ◌-◌, ◌*◌, ◌/◌, ◌≤◌, ◌<◌, max, ◌≡◌, Bool, true, false, ◌&&◌, ◌||◌, not, Text,
  codes, text_eq, List, [], ◌∷◌, Option, none, some, if◌then◌else◌, ◌==◌, leb, ltb, ℤ, pos, negsuc,
  abs, sub_ℕ, get, set, prune, length,
}

abbrev pub console_grant_skew_seconds : ℕ
console_grant_skew_seconds = 30

abbrev pub entry_ttl_ms : ℕ
entry_ttl_ms = 10 * 60 * 1000

abbrev pub skew_evidence_floor_seconds : ℕ
skew_evidence_floor_seconds = 15 * 60

pub data GrantRejection : Type 0 where
  sso_disabled origin_mismatch expired wrong_org clock_skew grant_used generic : GrantRejection

-- A claim of a payload, by its `typeof`. A number of seconds is its thousandths, since a token may have a
-- fraction; a finer one, which `new Date` cuts off, and a negative one are not modelled.
pub data Claim : Type 0 where
  str : Text → Claim
  num : ℕ → Claim
  other : Claim

pub record Payload : Type 0 where
  pub purpose : Claim
  pub org : Claim
  pub aud : Claim
  pub origin : Claim
  pub jti : Claim
  pub sub : Claim
  pub exp : Claim
  pub iat : Claim
  pub nbf : Claim

-- `exp` in thousandths.
pub record ConsoleGrantClaims : Type 0 where
  pub jti : Text
  pub org : Text
  pub sub : Text
  pub exp : ℕ

-- An offset is in thousandths too.
pub data GrantVerdict : Type 0 where
  accepted : ConsoleGrantClaims → GrantVerdict
  rejected : GrantRejection → GrantVerdict
  skewed : ℤ → GrantVerdict

-- What `importJWK` and `jwtVerify` answer together: the payload, or an error with its code.
pub data Verification : Type 0 where
  verified : Payload → Verification
  failed : Option Text → Verification

-- `jose`. A verified token has an expiry, which was not over by more than the tolerance at the start of the
-- second, and its payload does not depend on the moment.
pub record Jose : Type 0 where
  pub verify : Text → Text → ℕ → Verification
  pub decode : Text → Option Payload
  pub verify-exp :
      (key grant : Text) (now : ℕ) (c : Payload)
      → verify key grant now ≡ verified c
      → (e : ℕ) × (c.exp ≡ num e) × (now / 1000 * 1000 < e + console_grant_skew_seconds * 1000)
  pub verify-payload :
      (key grant : Text) (now later : ℕ) (c d : Payload)
      → verify key grant now ≡ verified c
      → verify key grant later ≡ verified d
      → c ≡ d

pub record GrantConfig : Type 0 where
  pub public_key : Option Text
  pub org_id : Option Text
  pub public_url_origin : Option Text
  pub sso_enabled : Bool

-- The calls of `onClockSkew` and `onClockOk`.
pub data ClockNote : Type 0 where
  no_note clock_ok : ClockNote
  clock_skewed : ℤ → ClockNote

pub record Outcome : Type 0 where
  pub verdict : GrantVerdict
  pub seen : List (Text × ℕ)
  pub note : ClockNote

-- `typeof v === "string" ? v : null`, and the same for a number.
abbrev pub string_of : Claim → Option Text
string_of (str t) = some t
string_of (num n) = none
string_of other = none

abbrev pub number_of : Claim → Option ℕ
number_of (str t) = none
number_of (num n) = some n
number_of other = none

-- `jti`, `org` and the configured texts as conditions: null and the empty string are false.
abbrev pub non_empty : Option Text → Option Text
non_empty none = none
non_empty (some []) = none
non_empty (some (c ∷ cs)) = some (c ∷ cs)

unfoldable pub is_time_failure : Option Text → Bool
is_time_failure none = false
is_time_failure (some code) =
    code == codes "ERR_JWT_EXPIRED" || code == codes "ERR_JWT_CLAIM_VALIDATION_FAILED"

abbrev pub start_of : Option ℕ → Option ℕ → Option ℕ
start_of (some nbf) iat = some nbf
start_of none iat = iat

-- The part of `clockSkewSeconds` about the end of the window.
abbrev pub overdue : Option ℕ → Option ℕ → ℕ → Option ℤ
overdue (some exp) (some iat) seconds =
    if ltb exp seconds && ltb (max (exp - iat) (skew_evidence_floor_seconds * 1000)) (seconds - exp)
    then some (pos (seconds - exp))
    else none
overdue (some exp) none seconds = none
overdue none iat seconds = none

abbrev pub skew_from : Option ℕ → Option ℕ → Option ℕ → ℕ → Option ℤ
skew_from none exp iat seconds = overdue exp iat seconds
skew_from (some start) exp iat seconds =
    if ltb seconds start then some (sub_ℕ seconds start) else overdue exp iat seconds

unfoldable pub clock_skew_seconds : Option Payload → ℕ → Option ℤ
clock_skew_seconds none now = none
clock_skew_seconds (some c) now =
    skew_from (start_of (number_of c.nbf) (number_of c.iat)) (number_of c.exp) (number_of c.iat)
      (now / 1000 * 1000)

-- `ConsumedGrants`: the used grants with their expiry, kept for as long as the verifier's tolerance
-- still lets them in.
unfoldable pub sweep_seen : ℕ → List (Text × ℕ) → List (Text × ℕ)
sweep_seen now seen = prune (λ expiry. leb (expiry + console_grant_skew_seconds * 1000) now) seen

abbrev pub consume_new : Text → ℕ → Option ℕ → List (Text × ℕ) → List (Text × ℕ) × Bool
consume_new jti expires_at (some e) seen = (seen, false)
consume_new jti expires_at none seen = (set jti expires_at seen, true)

unfoldable pub consume : Text → ℕ → ℕ → List (Text × ℕ) → List (Text × ℕ) × Bool
unfolding sweep_seen
consume jti expires_at now seen =
    let swept = sweep_seen now seen in consume_new jti expires_at (get jti swept) swept

abbrev pub reject : GrantRejection → List (Text × ℕ) → Outcome
reject reason seen = record { verdict = rejected reason; seen = seen; note = no_note }

-- The last checks: the id, the expiry, and the single use.
abbrev pub redeem : Option Text → Option ℕ → Text → Text → ℕ → List (Text × ℕ) → Outcome
redeem none exp org sub now seen = reject generic seen
redeem (some jti) none org sub now seen = reject generic seen
redeem (some jti) (some exp) org sub now seen =
    let (seen', fresh) = consume jti exp now seen in
    if fresh
    then record {
      verdict = accepted (record { jti = jti; org = org; sub = sub; exp = exp });
      seen = seen';
      note = clock_ok;
    }
    else reject grant_used seen'

-- `!a || a !== b`: absent, empty or different.
abbrev pub agree : Option Text → Option Text → Option Text
agree none b = none
agree (some a) none = none
agree (some a) (some b) = if a == b then some a else none

abbrev pub sub_of : Option Text → Text
sub_of none = []
sub_of (some t) = t

abbrev pub check_origin : GrantConfig → Payload → Text → ℕ → List (Text × ℕ) → Outcome
check_origin cfg c org now seen =
    elim (agree (non_empty cfg.public_url_origin) (string_of c.origin)) [
      | none ↦ reject origin_mismatch seen
      | some o ↦
          redeem (non_empty (string_of c.jti)) (number_of c.exp) org (sub_of (string_of c.sub)) now
            seen
    ]

-- The checks of a verified payload, in the order of the source.
unfoldable pub check_claims : GrantConfig → Payload → ℕ → List (Text × ℕ) → Outcome
unfolding consume
check_claims cfg c now seen = elim (agree (some (codes "console")) (string_of c.purpose)) [
  | none ↦ reject generic seen
  | some purpose ↦
      if not cfg.sso_enabled
      then reject sso_disabled seen
      else elim (agree (agree (non_empty (string_of c.org)) (string_of c.aud))
          (non_empty cfg.org_id)) [
            | none ↦ reject wrong_org seen
            | some org ↦ check_origin cfg c org now seen
          ]
]

-- A failed verification: only a failure of the window may say anything about the token.
abbrev pub explain_skew : Option ℤ → List (Text × ℕ) → Outcome
explain_skew none seen = reject expired seen
explain_skew (some skew) seen =
    if ltb (console_grant_skew_seconds * 1000) (abs skew)
    then record { verdict = skewed skew; seen = seen; note = clock_skewed skew }
    else reject expired seen

unfoldable pub explain_failure : Option Text → Option Payload → ℕ → List (Text × ℕ) → Outcome
unfolding is_time_failure clock_skew_seconds
explain_failure code decoded now seen =
    if is_time_failure code
    then explain_skew (clock_skew_seconds decoded now) seen
    else reject generic seen

-- `consume` reads the clock a second time, after the verification.
abbrev pub conclude :
    Verification → GrantConfig → Option Payload → ℕ → ℕ → List (Text × ℕ) → Outcome
conclude (verified c) cfg decoded now spent_at seen = check_claims cfg c spent_at seen
conclude (failed code) cfg decoded now spent_at seen = explain_failure code decoded now seen

module _ (jose : Jose) where
  abbrev pub with_key : Option Text → GrantConfig → Text → ℕ → ℕ → List (Text × ℕ) → Outcome
  with_key none cfg grant now spent_at seen = reject generic seen
  with_key (some key) cfg grant now spent_at seen =
      conclude (jose.verify key grant now) cfg (jose.decode grant) now spent_at seen

  -- The moment of the verification, and the later one at which the runtime's `consume` reads the clock.
  unfoldable pub verify_console_grant : GrantConfig → Text → ℕ → ℕ → List (Text × ℕ) → Outcome
  verify_console_grant cfg grant now spent_at seen =
      with_key (non_empty cfg.public_key) cfg grant now spent_at seen

-- `EntryContexts`.
pub record EntryRecord : Type 0 where
  pub id : Text
  pub workbench_sub : Text
  pub org : Text
  pub created_at : ℕ

unfoldable pub sweep_entries : ℕ → ℕ → List (Text × EntryRecord) → List (Text × EntryRecord)
sweep_entries ttl now records = prune (λ r. ltb (r.created_at + ttl) now) records

unfoldable pub create_entry :
    ℕ → Text → Text → Text → ℕ → List (Text × EntryRecord) → List (Text × EntryRecord) × EntryRecord
unfolding sweep_entries
create_entry ttl id workbench_sub org now records =
    let r : EntryRecord = record {
      id = id;
      workbench_sub = workbench_sub;
      org = org;
      created_at = now;
    } in
    (set id r (sweep_entries ttl now records), r)

unfoldable pub read_entry :
    ℕ → Option Text → ℕ → List (Text × EntryRecord) → List (Text × EntryRecord) × Option EntryRecord
unfolding sweep_entries
read_entry ttl none now records = (records, none)
read_entry ttl (some []) now records = (records, none)
read_entry ttl (some (c ∷ cs)) now records =
    let swept = sweep_entries ttl now records in (swept, get (c ∷ cs) swept)
