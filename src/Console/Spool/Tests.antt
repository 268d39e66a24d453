-- ===== src/Console/Spool/Tests.antt =====
-- Concrete spools, and the theorems at them.
use hx_fortress.Prelude.{
  ℕ, ◌≤◌, ◌≡◌, refl, ◌⊎◌, true, ◌||◌, not, none, some, List, [], ◌∷◌, ◌++◌, arith, nat_eq, length,
  keep_if, any, Text, codes, text_eq,
}
use hx_fortress.Console.Spool.{
  ui_writer, cli_writer, intent_kind, AuditInput, AuditRecord, AuditSpool, new_spool, record_of,
  write_record, count_bytes, append_one, append_all, switch_file, rotate, append, intent_input,
  outcome_input, resolve_intent, SpoolFile, SpoolUsage, SpoolCaps, over_spool_cap, total_bytes,
  ReclaimPlan, is_candidate, choose_file, plan_files, plan_spool_reclaim,
}
use hx_fortress.Console.Spool.Keys.{AreDistinct, Reaches, here, keys-AreDistinct}
use hx_fortress.Console.Spool.Pairs.{append-Reaches, outcome_finds_intent}
use hx_fortress.Console.Spool.Reclaim.{
  usage_without, usage_of, is_empty, first_files, plan_reclaims,
}

abbrev fields : AuditInput
fields = record {
  actor = some (codes "root");
  session_ref = none;
  tier = none;
  action = codes "rotate_key";
  params = none;
  kind = intent_kind;
  ref_file_id = none;
  ref_seq = none;
  outcome = none;
  error = none;
  origin = none;
}

-- Ids that count, and records of a hundred bytes; a file is full after one.
abbrev ids : ℕ → Text
ids n = n ∷ []

abbrev line_bytes : AuditRecord → ℕ
line_bytes r = 100

abbrev start : AuditSpool
start = new_spool ids line_bytes 0 ui_writer 100

ids-apart : (i j : ℕ) → ids i ≡ ids j → i ≡ j
ids-apart i j e = ground (arith, e)

abbrev first : AuditSpool
first = (append ids line_bytes 5 [] (intent_input ids line_bytes 5 fields) start).0

-- Two records later, in two files.
abbrev second : AuditSpool
second = (append ids line_bytes 7 (fields ∷ []) fields first).0

second-file : (second.file_id ≡ ids 1) × (second.seq ≡ 1)
unfolding append append_one append_all write_record count_bytes record_of rotate switch_file
    intent_input
second-file = (refl, refl)

second-reached : Reaches ids line_bytes first second
second-reached = append-Reaches ids line_bytes 7 (fields ∷ []) fields first

first-reached : Reaches ids line_bytes start first
first-reached = append-Reaches ids line_bytes 5 [] (intent_input ids line_bytes 5 fields) start

keys-AreDistinct_example : AreDistinct first.disk
keys-AreDistinct_example =
    keys-AreDistinct ids line_bytes ids-apart ui_writer 100 first first-reached

abbrev intent : AuditRecord
intent = (append ids line_bytes 5 [] (intent_input ids line_bytes 5 fields) start).1

outcome_finds_intent_example :
    resolve_intent
      (record_of ids line_bytes 9
        (outcome_input ids line_bytes 9 intent (codes "done") none)
        second)
      second.disk
    ≡ some intent
outcome_finds_intent_example =
    outcome_finds_intent ids line_bytes ids-apart ui_writer 100 5 [] fields start second 9
      (codes "done") none (here start) second-reached

abbrev old_file : SpoolFile
old_file = record { name = codes "a"; file_bytes = 60; file_writer = some cli_writer }

abbrev ui_file : SpoolFile
ui_file = record { name = codes "b"; file_bytes = 70; file_writer = some ui_writer }

abbrev new_file : SpoolFile
new_file = record { name = codes "c"; file_bytes = 20; file_writer = some cli_writer }

abbrev files : List SpoolFile
files = old_file ∷ ui_file ∷ new_file ∷ []

abbrev caps : SpoolCaps
caps = record { max_files = 64; max_bytes = 100 }

abbrev reserve : SpoolUsage
reserve = record { n_files = 1; n_bytes = 0 }

abbrev plan : ReclaimPlan
plan = plan_spool_reclaim (λ f. 1 ∷ 2 ∷ []) cli_writer [] caps reserve files

plan-chosen : plan.chosen ≡ [] ++ old_file ∷ []
unfolding plan_spool_reclaim plan_files choose_file total_bytes any
plan-chosen = refl

plan_reclaims_example :
    ((left : List SpoolFile) × ((plan.chosen ++ left
          ≡ keep_if (is_candidate (λ f. 1 ∷ 2 ∷ []) cli_writer [] caps) files)
        × (not (
                over_spool_cap
                  (usage_without plan.chosen
                    (usage_of (λ f. 1 ∷ 2 ∷ []) cli_writer [] caps reserve files))
                  caps)
              || is_empty (λ f. 1 ∷ 2 ∷ []) cli_writer [] caps left
            ≡ true)))
    × ((length plan.chosen ≤ 0)
        ⊎ (over_spool_cap
              (usage_without
                (first_files (λ f. 1 ∷ 2 ∷ []) cli_writer [] caps 0 plan.chosen)
                (usage_of (λ f. 1 ∷ 2 ∷ []) cli_writer [] caps reserve files))
              caps
            ≡ true))
    × (plan.bytes_chosen ≡ total_bytes plan.chosen)
plan_reclaims_example = plan_reclaims (λ f. 1 ∷ 2 ∷ []) cli_writer [] caps reserve files 0
