-- ===== src/Console/Spool.antt =====
-- src/console/audit-spool.ts: the writer of the append-only spool, with its files, the pairing of an
-- outcome with its intent, and the plan that reclaims a writer's oldest files.
pub mod Keys
pub mod Pairs
pub mod Reclaim
mod Tests
use hx_fortress.Prelude.{
  ℕ, zero, suc, ◌+◌, ◌-◌, ◌*◌, ◌/◌, ◌%◌, ◌≤◌, ◌<◌, min, max, ◌≡◌, refl, sym, ap, subst, ◌∙◌, ◌≢◌,
  ◌↔◌, ◌⊎◌, inl, inr, Bool, true, false, ◌&&◌, ◌||◌, not, Option, none, some, List, [], ◌∷◌, ◌++◌,
  map, arith, ltb, leb, nat_beq, if◌then◌else◌, Bool-cases, Option-cases, Eq, ◌==◌, nat_eq,
  beq_refl, beq_ne, length, keep_if, any, find, All, Among, Among-append, Among-last, Among-keep_if,
  keep_if-Among, Text, codes, text_beq, text_beq_iff, text_eq, get, set, delete, IsMap, prune,
  pruned, get-set, get-set_self, get-set_ne, get-delete, Try, value, thrown, ◌>>=◌, or_throw,
}

pub data AuditOrigin : Type 0 where
  console cli system : AuditOrigin

pub data SpoolWriter : Type 0 where
  ui_writer cli_writer daemon_writer : SpoolWriter

abbrev pub writer_origin : SpoolWriter → AuditOrigin
writer_origin ui_writer = console
writer_origin cli_writer = cli
writer_origin daemon_writer = system

pub data RecordKind : Type 0 where
  intent_kind outcome_kind : RecordKind

abbrev pub is_intent : RecordKind → Bool
is_intent intent_kind = true
is_intent outcome_kind = false

-- `AuditRecordInput`; the parameters are what `sanitizeParams` has let through, and the error what
-- `redactCredentials` has.
pub record AuditInput : Type 0 where
  pub actor : Option Text
  pub session_ref : Option Text
  pub tier : Option Text
  pub action : Text
  pub params : Option Text
  pub kind : RecordKind
  pub ref_file_id : Option Text
  pub ref_seq : Option ℕ
  pub outcome : Option Text
  pub error : Option Text
  pub origin : Option AuditOrigin

pub record AuditRecord : Type 0 where
  pub file_id : Text
  pub seq : ℕ
  pub ts : ℕ
  pub input : AuditInput
  pub origin : AuditOrigin

abbrev pub spool_rotate_bytes : ℕ
spool_rotate_bytes = 4 * 1024 * 1024

-- `AuditSpool`, with how many file ids it has drawn; and the records on disk, in the order in which
-- they were appended, each in the file that it names.
pub record AuditSpool : Type 0 where
  pub writer : SpoolWriter
  pub rotate_bytes : ℕ
  pub file_id : Text
  pub drawn : ℕ
  pub seq : ℕ
  pub bytes : ℕ
  pub rotating : Bool
  pub rotate_due : Bool
  pub disk : List AuditRecord

abbrev pub origin_or : Option AuditOrigin → AuditOrigin → AuditOrigin
origin_or none origin = origin
origin_or (some given) origin = given

-- The ids drawn, the bytes of a record's line, and the time.
module _ (ids : ℕ → Text) (line_bytes : AuditRecord → ℕ) (now : ℕ) where
  abbrev pub new_spool : SpoolWriter → ℕ → AuditSpool
  new_spool writer rotate_bytes = record {
    writer = writer;
    rotate_bytes = rotate_bytes;
    file_id = ids 0;
    drawn = 0;
    seq = 0;
    bytes = 0;
    rotating = false;
    rotate_due = false;
    disk = [];
  }

  -- The record that `appendOne` makes, at the next place of the file.
  unfoldable pub record_of : AuditInput → AuditSpool → AuditRecord
  record_of input s = record {
    file_id = s.file_id;
    seq = s.seq + 1;
    ts = now;
    input = input;
    origin = origin_or input.origin (writer_origin s.writer);
  }

  -- `appendOne` up to the write, and what follows it: the bytes are counted, and a file past its bound
  -- is due, except while it is being retired.
  unfoldable pub write_record : AuditInput → AuditSpool → AuditSpool
  write_record input s = record s { seq = s.seq + 1; disk = s.disk ++ record_of input s ∷ [] }

  unfoldable pub count_bytes : ℕ → AuditSpool → AuditSpool
  count_bytes n s = record s {
    bytes = s.bytes + n;
    rotate_due = s.rotate_due || (not s.rotating && leb s.rotate_bytes (s.bytes + n));
  }

  unfoldable pub append_one : AuditInput → AuditSpool → AuditSpool
  append_one input s = count_bytes (line_bytes (record_of input s)) (write_record input s)

  unfoldable pub append_all : List AuditInput → AuditSpool → AuditSpool
  append_all [] s = s
  append_all (input ∷ inputs) s = append_all inputs (append_one input s)

  -- A fresh file.
  unfoldable pub switch_file : AuditSpool → AuditSpool
  switch_file s = record s {
    rotating = false;
    file_id = ids (s.drawn + 1);
    drawn = s.drawn + 1;
    seq = 0;
    bytes = 0;
  }

  -- `rotate`, where `beforeRotate` appends what it flushes.
  unfoldable pub rotate : List AuditInput → AuditSpool → AuditSpool
  rotate flushed s =
      if s.rotating
      then s
      else switch_file (append_all flushed (record s { rotating = true; rotate_due = false }))

  abbrev pub before_append : List AuditInput → AuditSpool → AuditSpool
  before_append flushed s = if s.rotate_due then rotate flushed s else s

  -- `append`: the spool, and the record that the caller is given.
  unfoldable pub append : List AuditInput → AuditInput → AuditSpool → AuditSpool × AuditRecord
  append flushed input s =
      (append_one input (before_append flushed s), record_of input (before_append flushed s))

  unfoldable pub intent_input : AuditInput → AuditInput
  intent_input fields = record fields {
    kind = intent_kind;
    ref_file_id = none;
    ref_seq = none;
    outcome = none;
    error = none;
  }

  -- `outcome`: it names its intent's file as well as its place.
  unfoldable pub outcome_input : AuditRecord → Text → Option Text → AuditInput
  outcome_input intent outcome error = record {
    actor = intent.input.actor;
    session_ref = intent.input.session_ref;
    tier = intent.input.tier;
    action = intent.input.action;
    params = none;
    kind = outcome_kind;
    ref_file_id = some intent.file_id;
    ref_seq = some intent.seq;
    outcome = some outcome;
    error = error;
    origin = some intent.origin;
  }

  unfoldable pub event_input : AuditInput → AuditInput
  event_input fields = record fields { kind = outcome_kind; ref_file_id = none; ref_seq = none }

abbrev pub file_or : Option Text → Text → Text
file_or none file = file
file_or (some given) file = given

abbrev pub answers : Text → ℕ → AuditRecord → Bool
answers file seq r = is_intent r.input.kind && (text_beq r.file_id file && nat_beq r.seq seq)

abbrev pub find_answered : Option ℕ → Text → List AuditRecord → Option AuditRecord
find_answered none file records = none
find_answered (some seq) file records = find (answers file seq) records

unfoldable pub resolve_intent : AuditRecord → List AuditRecord → Option AuditRecord
resolve_intent outcome records =
    find_answered outcome.input.ref_seq (file_or outcome.input.ref_file_id outcome.file_id) records

-- What `listSpoolFiles` tells of a file; an unknown writer is none of the three.
pub record SpoolFile : Type 0 where
  pub name : Text
  pub file_bytes : ℕ
  pub file_writer : Option SpoolWriter

abbrev pub writer_beq : SpoolWriter → Option SpoolWriter → Bool
writer_beq ui_writer (some ui_writer) = true
writer_beq cli_writer (some cli_writer) = true
writer_beq daemon_writer (some daemon_writer) = true
writer_beq _ _ = false

pub record SpoolUsage : Type 0 where
  pub n_files : ℕ
  pub n_bytes : ℕ

pub record SpoolCaps : Type 0 where
  pub max_files : ℕ
  pub max_bytes : ℕ

abbrev pub default_spool_caps : SpoolCaps
default_spool_caps = record { max_files = 64; max_bytes = 32 * 1024 * 1024 }

abbrev pub over_spool_cap : SpoolUsage → SpoolCaps → Bool
over_spool_cap usage caps = ltb caps.max_files usage.n_files || ltb caps.max_bytes usage.n_bytes

unfoldable pub total_bytes : List SpoolFile → ℕ
total_bytes [] = 0
total_bytes (file ∷ files) = file.file_bytes + total_bytes files

pub record ReclaimPlan : Type 0 where
  pub chosen : List SpoolFile
  pub n_records : ℕ
  pub from : Option ℕ
  pub to : Option ℕ
  pub bytes_chosen : ℕ

abbrev pub empty_plan : ReclaimPlan
empty_plan = record { chosen = []; n_records = 0; from = none; to = none; bytes_chosen = 0 }

abbrev pub first_of : List ℕ → Option ℕ
first_of [] = none
first_of (t ∷ times) = some t

unfoldable pub last_of : List ℕ → Option ℕ
last_of [] = none
last_of (t ∷ []) = some t
last_of (t ∷ (u ∷ times)) = last_of (u ∷ times)

abbrev pub earlier : Option ℕ → Option ℕ → Option ℕ
earlier none known = known
earlier (some t) none = some t
earlier (some t) (some known) = if ltb t known then some t else some known

abbrev pub later : Option ℕ → Option ℕ → Option ℕ
later none known = known
later (some t) none = some t
later (some t) (some known) = if ltb known t then some t else some known

-- What a file's records are read as: their times.
module _ (times_of : SpoolFile → List ℕ) (writer : SpoolWriter) (keep : List Text)
    (caps : SpoolCaps) where
  abbrev pub is_candidate : SpoolFile → Bool
  is_candidate file =
      writer_beq writer file.file_writer && not (any (λ name. text_beq name file.name) keep)

  unfoldable pub choose_file : SpoolFile → ReclaimPlan → ReclaimPlan
  choose_file file plan = record {
    chosen = plan.chosen ++ file ∷ [];
    n_records = plan.n_records + length (times_of file);
    from = earlier (first_of (times_of file)) plan.from;
    to = later (last_of (times_of file)) plan.to;
    bytes_chosen = plan.bytes_chosen + file.file_bytes;
  }

  abbrev pub less_file : SpoolFile → SpoolUsage → SpoolUsage
  less_file file usage = record {
    n_files = usage.n_files - 1;
    n_bytes = usage.n_bytes - file.file_bytes;
  }

  unfoldable pub plan_files : List SpoolFile → SpoolUsage → ReclaimPlan → ReclaimPlan
  plan_files [] usage plan = plan
  plan_files (file ∷ files) usage plan =
      let skipped = plan_files files usage plan in
      let chosen = plan_files files (less_file file usage) (choose_file file plan) in
      if not (over_spool_cap usage caps)
      then plan
      else if not (is_candidate file)
      then skipped
      else chosen

  -- `planSpoolReclaim` over the files, oldest first, with room reserved.
  unfoldable pub plan_spool_reclaim : SpoolUsage → List SpoolFile → ReclaimPlan
  plan_spool_reclaim reserve files =
      plan_files files
        (record {
          n_files = length files + reserve.n_files;
          n_bytes = total_bytes files + reserve.n_bytes;
        })
        empty_plan
