-- ===== src/Console/Migration/Tests.antt =====
-- Concrete migrations, and the theorems at them.
use hx_fortress.Prelude.{
  ℕ, ◌+◌, ◌-◌, ◌≤◌, ◌≡◌, refl, sym, ap, subst, ◌∙◌, inl, inr, Bool, true, false, none, some, [],
  ◌∷◌, arith, leb, if◌then◌else◌, Bool-cases, nat_eq, length, keep_if, any, Among, Text, codes,
  text_beq, text_eq, value,
}
use hx_fortress.Console.PauseGate.{starts_with}
use hx_fortress.Console.Migration.Contract.{is_deleted_with}
use hx_fortress.Console.Migration.{
  SessionKey, key_beq, Store, CopiedObject, session_ref, arrived, copy_artifacts, copy_text,
  copy_session, sidecars_current, target_is_current, Progress, copy_one, copy_missing, behind_of,
  delta_pass, delete_until, replay_tombstones, short_session, missing_sidecar, missing_sidecars,
  verify_session, verify_keys, verify_target,
}
use hx_fortress.Console.Migration.Contract.{Lists}
use hx_fortress.Console.Migration.Delta.{IsNamed}
use hx_fortress.Console.Migration.Copied.{copy_session-current}
use hx_fortress.Console.Migration.Passes.{delta_pass-current}
use hx_fortress.Console.Migration.Converges.{replay_tombstones-converges}
use hx_fortress.Console.Migration.Whole.{final_pass-verified}
use hx_fortress.Console.Migration.Succeeds.{delta_pass-succeeds}
use hx_fortress.Console.Migration.Toy.{
  Sidecar, Memory, read_side, names_of, without, read_side-named, memory_store,
  memory_store-Honours, memory_store-Keeps, memory_store-Measures,
}

abbrev chat : SessionKey
chat = record { user_id = codes "u1"; family = codes "f"; session_id = codes "s1" }

abbrev gone_key : SessionKey
gone_key = record { user_id = codes "u1"; family = codes "f"; session_id = codes "s0" }

abbrev sidecar : Sidecar
sidecar = record { key = chat; name = codes "session.json"; text = codes "t" }

abbrev source : Memory
source = record {
  all_keys = chat ∷ [];
  canonical = λ j. if key_beq chat j then some (codes "hello") else none;
  sidecars = sidecar ∷ [];
}

-- A target with a shorter copy of the session, and one that has been deleted since.
abbrev target : Memory
target = record {
  all_keys = [];
  canonical = λ j.
      if key_beq chat j
      then some (codes "hell")
      else if key_beq gone_key j
      then some (codes "x")
      else none;
  sidecars = [];
}

-- A record of an earlier run, which the shorter copy must not pass for.
abbrev begun : Progress memory_store
begun = record {
  target = target;
  done_refs = session_ref chat ∷ [];
  sessions_copied = 0;
  bytes_copied = 0;
  copied = [];
}

abbrev digest : Text → Text
digest x = x

abbrev landed : Memory
landed = record {
  all_keys = [];
  canonical = λ j. if key_beq chat j then some (codes "hello") else target.canonical j;
  sidecars = sidecar ∷ [];
}

abbrev copied_chat : CopiedObject
copied_chat = record { key = chat; checksum = codes "hello"; bytes = 5 }

chat-copied :
    copy_session digest length memory_store memory_store source chat target
    ≡ value (landed, copied_chat)
unfolding copy_session copy_text copy_artifacts read_side names_of key_beq text_beq
chat-copied = refl

copy_session-current_example :
    (arrived digest length memory_store memory_store source (landed.canonical chat) (codes "hello")
      ≡ true)
    × (target_is_current digest length memory_store memory_store source chat true landed ≡ true)
    × (target_is_current digest length memory_store memory_store source gone_key true landed ≡ (
        if key_beq chat gone_key
        then true
        else target_is_current digest length memory_store memory_store source gone_key true target))
    × (copied_chat.checksum ≡ digest (codes "hello"))
    × (some 5 ≡ some copied_chat.bytes)
unfolding key_beq text_beq
copy_session-current_example =
    copy_session-current digest length memory_store memory_store source memory_store-Honours
      (memory_store-Measures source) chat gone_key (codes "hello") target landed copied_chat refl
      chat-copied

abbrev passed : Progress memory_store
passed = record {
  target = landed;
  done_refs = session_ref chat ∷ [];
  sessions_copied = 1;
  bytes_copied = 5;
  copied = copied_chat ∷ [];
}

source-passed : delta_pass digest length memory_store memory_store source true begun ≡ value passed
unfolding delta_pass behind_of copy_missing copy_one copy_session copy_text copy_artifacts
    target_is_current sidecars_current session_ref read_side names_of key_beq text_beq keep_if any
source-passed = refl

source-IsNamed : (j : SessionKey) → Among j (chat ∷ []) → IsNamed j
source-IsNamed j (inl e) =
    subst IsNamed (sym e) (record { user_free = ground arith; family_free = ground arith })
source-IsNamed j (inr there) = elim there [ ]

delta_pass-current_example :
    target_is_current digest length memory_store memory_store source chat true landed ≡ true
delta_pass-current_example =
    delta_pass-current digest length memory_store memory_store source memory_store-Honours
      (memory_store-Measures source) true begun passed chat source-IsNamed source-passed (inl refl)

source-readable :
    (k : SessionKey) → Among k (chat ∷ []) → (text : Text) × (source.canonical k ≡ some text)
unfolding key_beq text_beq
source-readable k (inl e) = (codes "hello", ap source.canonical e ∙ refl)
source-readable k (inr there) = elim there [ ]

delta_pass-succeeds_example :
    (q : Progress memory_store) × (delta_pass digest length memory_store memory_store source true
        begun
      ≡ value q)
delta_pass-succeeds_example =
    delta_pass-succeeds digest length memory_store memory_store source memory_store-Keeps true begun
      source-readable

abbrev replayed : Memory
replayed = record {
  all_keys = [];
  canonical = λ j. if is_deleted_with gone_key j then none else landed.canonical j;
  sidecars = sidecar ∷ [];
}

landed-replayed :
    replay_tombstones digest length memory_store memory_store source (gone_key ∷ []) landed
    ≡ value replayed
unfolding replay_tombstones delete_until without key_beq text_beq starts_with
landed-replayed = refl

-- A target that holds so many objects of each session, and deletes a batch at a time.
abbrev batch : ℕ → ℕ × Bool
batch n = if leb n 800 then (0, true) else (n - 800, false)

abbrev batches : Store
batches = record {
  State = ℕ;
  keys = λ n. [];
  stat = λ n key. if leb n 0 then none else some n;
  read_canonical = λ n key. none;
  write_canonical = λ n key x. n + 1;
  artifacts = λ n key. [];
  read_artifact = λ n key name. none;
  write_artifact = λ n key name x. n + 1;
  delete_session = λ n key. batch n;
}

batch-partial : (n : ℕ) → (batch n).1 ≡ false → (batch n).0 + 800 ≤ n
batch-partial n partial = elim (Bool-cases (leb n 800)) [
  | inl few ↦ absurd (ground (arith, few, partial))
  | inr many ↦ ground (arith, many)
]

batch-shrinks : (n : ℕ) → (batch n).0 ≤ n
batch-shrinks n = elim (Bool-cases (leb n 800)) [
  | inl few ↦ ground (arith, few)
  | inr many ↦ ground (arith, many)
]

-- The first of three deletions needs three passes.
replay_tombstones-converges_example :
    (u : ℕ) × (replay_tombstones digest length memory_store batches source
        (gone_key ∷ gone_key ∷ chat ∷ [])
        2000
      ≡ value u)
replay_tombstones-converges_example =
    replay_tombstones-converges digest length memory_store batches source (λ n k. n)
      (λ n k partial. batch-partial n partial) (λ n k j. batch-shrinks n)
      (gone_key ∷ gone_key ∷ chat ∷ []) 2000 (λ j. omega arith)

first-partial : batch 2000 ≡ (1200, false)
first-partial = refl

source-listed :
    (k : SessionKey) → Among k (chat ∷ []) → (n : ℕ) × (Store.stat memory_store source k ≡ some n)
unfolding key_beq text_beq
source-listed k (inl e) = (5, ap (Store.stat memory_store source) e ∙ refl)
source-listed k (inr there) = elim there [ ]

source-Lists : Lists memory_store source
source-Lists = record {
  listed = source-listed;
  readable = λ k name there. read_side-named (sidecar ∷ []) k name there;
}

tombstone_apart :
    (j k : SessionKey) → Among j (chat ∷ []) → Among k (gone_key ∷ []) → is_deleted_with k j ≡ false
unfolding text_beq starts_with
tombstone_apart j k (inl e) (inl f) =
    subst (λ x. is_deleted_with k x ≡ false) (sym e)
      (subst (λ y. is_deleted_with y chat ≡ false) (sym f) refl)
tombstone_apart j k (inl e) (inr there) = elim there [ ]
tombstone_apart j k (inr there) deleted = elim there [ ]

final_pass-verified_example :
    verify_target digest length memory_store memory_store source replayed ≡ []
final_pass-verified_example =
    final_pass-verified digest length memory_store memory_store source memory_store-Honours
      (memory_store-Measures source) source-Lists (gone_key ∷ []) begun passed replayed
      source-IsNamed tombstone_apart source-passed landed-replayed

-- What a target that was not narrowed would miss: the canonical is short, and the sidecar absent.
target-verified :
    verify_target digest length memory_store memory_store source target
    ≡ short_session chat ∷ missing_sidecar chat (codes "session.json") ∷ []
unfolding verify_target verify_keys verify_session missing_sidecars names_of key_beq text_beq any
target-verified = refl
