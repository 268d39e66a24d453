-- ===== src/Console/Audit.antt =====
-- src/console/audit-verdicts.ts: the residency verdict of a session, whether it passes, and the fleet's
-- roll-up. The sentences of a roll-up are constructors with the numbers they name.
pub mod Engine
pub mod Matrix
pub mod Fleet
pub mod Quiet
pub mod Clean
pub mod Pacing
mod Tests
use hx_fortress.Prelude.{
  ℕ, zero, suc, ◌+◌, ◌-◌, ◌*◌, ◌/◌, ◌%◌, ◌≤◌, ◌<◌, min, max, ◌≡◌, refl, sym, ap, subst, ◌∙◌, ◌≢◌,
  ◌↔◌, ◌⊎◌, inl, inr, Bool, true, false, ◌&&◌, ◌||◌, not, Option, none, some, List, [], ◌∷◌, ◌++◌,
  map, arith, ltb, leb, nat_beq, if◌then◌else◌, Bool-cases, Option-cases, Eq, ◌==◌, nat_eq,
  beq_refl, beq_ne, length, keep_if, any, find, All, Among, Among-append, Among-last, Among-keep_if,
  keep_if-Among, Text, codes, text_beq, text_beq_iff, text_eq, get, set, delete, IsMap, prune,
  pruned, get-set, get-set_self, get-set_ne, get-delete, Try, value, thrown, ◌>>=◌, or_throw,
}

pub data ResidencyVerdict : Type 0 where
  confirmed also_at_letai not_delivered_here no_record copy_unchecked missing_here :
      ResidencyVerdict
  lanes_hold_it residency_unchecked residency_unwitnessable : ResidencyVerdict
  unknown_provenance not_applicable : ResidencyVerdict

pub record VerdictInput : Type 0 where
  pub fortress_present : Bool
  pub letai_copy : Bool
  pub any_destination_record : Bool
  pub hub_routed_here : Bool
  pub ingest_channel : Option Text
  pub acknowledged : Bool
  pub has_own_transcript : Bool
  pub has_lane_object : Bool
  pub witness_askable : Bool
  pub witness_answered : Bool

abbrev pub is_channel : Text → Option Text → Bool
is_channel name none = false
is_channel name (some channel) = text_beq channel name

unfoldable pub witness_eligible : Option Text → Bool
witness_eligible channel = is_channel (codes "tunnel") channel

-- The exemption of a session whose bytes are under its agent lanes.
abbrev pub lanes_exempt : VerdictInput → Bool
lanes_exempt input =
    not input.fortress_present
    && (not input.has_own_transcript
        && (input.has_lane_object
            && (not input.hub_routed_here
                && (not (witness_eligible input.ingest_channel) || input.witness_answered))))

unfoldable pub verdict_for : VerdictInput → ResidencyVerdict
verdict_for input =
    if lanes_exempt input
    then lanes_hold_it
    else if not (witness_eligible input.ingest_channel)
    then if not input.fortress_present
      then missing_here
      else if is_channel (codes "gateway") input.ingest_channel
      then not_applicable
      else unknown_provenance
    else if input.fortress_present
    then if input.letai_copy
      then also_at_letai
      else if input.witness_answered
      then confirmed
      else copy_unchecked
    else if not input.witness_askable
    then residency_unwitnessable
    else if not input.witness_answered
    then residency_unchecked
    else if input.hub_routed_here
    then not_delivered_here
    else if input.has_own_transcript || not input.has_lane_object
    then missing_here
    else no_record

unfoldable pub session_check_passes : ResidencyVerdict → Bool → Bool
session_check_passes not_delivered_here acknowledged = false
session_check_passes missing_here acknowledged = false
session_check_passes residency_unchecked acknowledged = false
session_check_passes residency_unwitnessable acknowledged = false
session_check_passes also_at_letai acknowledged = acknowledged
session_check_passes _ acknowledged = true

abbrev pub acknowledgeable : ResidencyVerdict → Bool
acknowledgeable also_at_letai = true
acknowledgeable _ = false

pub record RollUpCounts : Type 0 where
  pub sessions_checked : ℕ
  pub n_confirmed : ℕ
  pub n_copy_unchecked : ℕ
  pub n_also_at_letai : ℕ
  pub n_acknowledged : ℕ
  pub n_not_delivered_here : ℕ
  pub n_no_record : ℕ
  pub n_missing_here : ℕ
  pub n_lanes_hold_it : ℕ
  pub n_unchecked : ℕ
  pub n_unwitnessable : ℕ
  pub n_unknown_provenance : ℕ
  pub n_not_applicable : ℕ

pub data FleetVerdict : Type 0 where
  clean qualified failed : FleetVerdict

pub data WitnessState : Type 0 where
  attested off unavailable : WitnessState

-- The notes of a verdict that is qualified.
pub data Note : Type 0 where
  copies_acknowledged of_unknown_channel uploaded_directly predating never_checked : ℕ → Note
  witness_silent : WitnessState → Note
  posture_not_fresh : Note

pub data Qualification : Type 0 where
  should_be_here not_in_bucket cannot_be_asked : ℕ → Qualification
  unaccounted_for : ℕ → WitnessState → Qualification
  not_acknowledged : ℕ → Qualification
  held_here_only : Qualification
  qualified_by : List Note → Qualification
  -- A run that stopped at its budget, after so many sessions.
  stopped_after : Qualification → ℕ → Qualification

abbrev pub note_if : ℕ → (ℕ → Note) → List Note
note_if n note = if ltb 0 n then note n ∷ [] else []

abbrev pub witness_notes : Bool → WitnessState → List Note
witness_notes fresh attested = if fresh then [] else posture_not_fresh ∷ []
witness_notes fresh off = witness_silent off ∷ []
witness_notes fresh unavailable = witness_silent unavailable ∷ []

unfoldable pub notes_of : RollUpCounts → Bool → WitnessState → List Note
notes_of counts fresh witness =
    note_if counts.n_acknowledged copies_acknowledged
    ++ (note_if counts.n_unknown_provenance of_unknown_channel
        ++ (note_if counts.n_not_applicable uploaded_directly
            ++ (note_if counts.n_no_record predating
                ++ (note_if counts.n_copy_unchecked never_checked ++ witness_notes fresh witness))))

abbrev pub noted_verdict : List Note → FleetVerdict × Qualification
noted_verdict [] = (clean, held_here_only)
noted_verdict (note ∷ notes) = (qualified, qualified_by (note ∷ notes))

-- The roll-up, for a witness state that is given.
unfoldable pub roll_up : RollUpCounts → Bool → WitnessState → FleetVerdict × Qualification
roll_up counts fresh witness =
    if ltb 0 counts.n_not_delivered_here
    then (failed, should_be_here counts.n_not_delivered_here)
    else if ltb 0 counts.n_missing_here
    then (failed, not_in_bucket counts.n_missing_here)
    else if ltb 0 counts.n_unwitnessable
    then (failed, cannot_be_asked counts.n_unwitnessable)
    else if ltb 0 counts.n_unchecked
    then (failed, unaccounted_for counts.n_unchecked witness)
    else if ltb counts.n_acknowledged counts.n_also_at_letai
    then (failed, not_acknowledged (counts.n_also_at_letai - counts.n_acknowledged))
    else noted_verdict (notes_of counts fresh witness)
