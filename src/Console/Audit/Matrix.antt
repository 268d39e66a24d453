-- ===== src/Console/Audit/Matrix.antt =====
-- src/console/audit-verdicts.ts: the matrix of verdicts against what each of them has to mean.
use hx_fortress.Prelude.{
  ◌≡◌, ◌≢◌, Bool, true, false, ◌&&◌, ◌||◌, not, arith, if◌then◌else◌, nat_eq, text_eq,
}
use hx_fortress.Console.Audit.{
  ResidencyVerdict, not_delivered_here, no_record, VerdictInput, witness_eligible, verdict_for,
  session_check_passes,
}

-- No transcript of its own, a lane of it here, and let.ai does not say that it was sent here, nor is left
-- unasked where it can be asked.
abbrev pub lanes_hold : VerdictInput → Bool
lanes_hold input =
    input.has_lane_object
    && (not (input.has_own_transcript || input.hub_routed_here)
        && (input.witness_answered || not (witness_eligible input.ingest_channel)))

-- A session is accounted for when its object is here, and no copy at let.ai is left unacknowledged; or
-- when its lanes hold it.
abbrev pub is_accounted : VerdictInput → Bool → Bool
is_accounted input acknowledged =
    if input.fortress_present
    then not (witness_eligible input.ingest_channel && input.letai_copy) || acknowledged
    else lanes_hold input

abbrev pub is_incident : ResidencyVerdict → Bool
is_incident not_delivered_here = true
is_incident _ = false

-- A session passes its check just when it is accounted for: its object is here, with no copy at let.ai
-- that is left unacknowledged; or it has no transcript of its own, one of its lanes is here, and let.ai,
-- asked where it can be, does not say that it was sent here. So no acknowledgement and no silence of
-- the witness lets a lost transcript pass.
pub passes_accounted :
    (input : VerdictInput) (acknowledged : Bool)
    → session_check_passes (verdict_for input) acknowledged ≡ is_accounted input acknowledged
unfolding verdict_for session_check_passes
passes_accounted input acknowledged = ground arith

-- The incident is raised just when let.ai was asked, answered, and recorded a delivery to this fortress
-- of an object that is not here; no other channel's session raises it. And `no_record`, which reads as
-- benign, is never the verdict.
pub incident_exact :
    (input : VerdictInput)
    → (is_incident (verdict_for input) ≡ (
        not input.fortress_present
        && (witness_eligible input.ingest_channel
            && (input.witness_askable && (input.witness_answered && input.hub_routed_here)))))
      × (verdict_for input ≢ no_record)
unfolding verdict_for
incident_exact input = (ground arith, λ e. ground (arith, e))
