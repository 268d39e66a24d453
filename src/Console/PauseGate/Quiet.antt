-- ===== src/Console/PauseGate/Quiet.antt =====
-- src/console/pause-gate.ts: overlapping calls as steps, and what a quiet accounting promises of them.
use hx_fortress.Prelude.{
  ℕ, suc, ◌+◌, ◌≤◌, ◌<◌, ◌≡◌, refl, sym, ap, subst, ◌∙◌, ◌⊎◌, inl, inr, Bool, true, false, none,
  some, List, [], ◌∷◌, ◌++◌, arith, nat_beq, Bool-cases, Option-cases, nat_eq, length, any, All,
  text_eq,
}
use hx_fortress.Console.IngestControl.{
  EffectivePause, observe, observe_unavailable, fresh_state, paused_until,
}
use hx_fortress.Console.PauseGate.{
  IngestQuiesce, fresh_quiesce, enter, leave, note_signature, is_quiesced, StoreMethod,
  sign_staging_upload, Gate, gated, begin, goes_through_gate, assert_writable, Begun, rejected,
  reached_store,
}

-- What the counter counts: a gated call of the store, or deferred work tracked from its enqueueing.
pub data Work : Type 0 where
  store_call : StoreMethod → Work
  deferred : Work

pub record World : Type 0 where
  pub gate : Gate
  -- The tracked work that has begun and not settled.
  pub running : List Work
  -- Expiries of signatures that the store has handed out.
  pub signatures : List ℕ
  -- Those of them whose call has settled, and has not yet come to `noteSignature`.
  pub unnoted : List ℕ

abbrev pub first_world : World
first_world = record {
  gate = record { state = fresh_state; quiesce = fresh_quiesce; refusals = 0 };
  running = [];
  signatures = [];
  unnoted = [];
}

abbrev pub tracked_if : Bool → Begun → StoreMethod → List Work → List Work
tracked_if through (rejected until) method running = running
tracked_if true reached_store method running = store_call method ∷ running
tracked_if false reached_store method running = running

unfoldable pub call : StoreMethod → ℕ → World → World
call method now w = record w {
  gate = (begin method now w.gate).0;
  running = tracked_if (goes_through_gate method) (begin method now w.gate).1 method w.running;
}

unfoldable pub with_quiesce : (IngestQuiesce → IngestQuiesce) → World → World
with_quiesce f w = record w { gate = record w.gate { quiesce = f w.gate.quiesce } }

-- Calls begin and settle in any order. A call of `signStagingUpload` that gets its signature settles,
-- which leaves the counter, and only a later step of its own notes the signature.
pub data Step : World → World → Type 0 where
  called : (method : StoreMethod) (now : ℕ) (w : World) → Step w (call method now w)
  tracked : (w : World) → Step w (record (with_quiesce enter w) { running = deferred ∷ w.running })
  settled :
      (work : Work) (before after : List Work) (w : World)
      → w.running ≡ before ++ work ∷ after
      → Step w (record (with_quiesce leave w) { running = before ++ after })
  signed :
      (expiry : ℕ) (before after : List Work) (w : World)
      → w.running ≡ before ++ store_call sign_staging_upload ∷ after
      → Step w (record (with_quiesce leave w) {
        running = before ++ after;
        signatures = expiry ∷ w.signatures;
        unnoted = expiry ∷ w.unnoted;
      })
  noted :
      (expiry : ℕ) (before after : List ℕ) (w : World)
      → w.unnoted ≡ before ++ expiry ∷ after
      → Step w
          (record (with_quiesce (note_signature (some expiry)) w) { unnoted = before ++ after })
  refreshed :
      (pause : EffectivePause) (w : World)
      → Step w (record w { gate = record w.gate { state = observe pause w.gate.state } })
  refresh_failed :
      (w : World)
      → Step w (record w { gate = record w.gate { state = observe_unavailable w.gate.state } })

pub data Reaches (start : World) : World → Type 0 where
  here : Reaches start start
  then_step : (v w : World) → Reaches start v → Step v w → Reaches start w

has : ℕ → List ℕ → Bool
has e xs = any (nat_beq e) xs

-- Every signature is within the floor, or its note is still to come.
abbrev Covered : ℕ → List ℕ → List ℕ → Type 0
Covered floor unnoted signatures = All (λ e. (e ≤ floor) ⊎ (has e unnoted ≡ true)) signatures

Accounted : World → Type 0
Accounted w =
    (w.gate.quiesce.in_flight ≡ length w.running)
    × Covered w.gate.quiesce.signature_floor_ms w.unnoted w.signatures

All-mono : {P Q : ℕ → Type 0} (xs : List ℕ) → ((e : ℕ) → P e → Q e) → All P xs → All Q xs
All-mono [] f h = tt
All-mono (x ∷ xs) f h = (f x h.0, All-mono xs f h.1)

length-split :
    {A : Type 0} (before after : List A) (x : A)
    → length (before ++ x ∷ after) ≡ suc (length (before ++ after))
length-split [] after x = refl
length-split (y ∷ before) after x = ap suc (length-split before after x)

has-split :
    (e x : ℕ) (before after : List ℕ)
    → has e (before ++ x ∷ after) ≡ true
    → (e ≡ x) ⊎ (has e (before ++ after) ≡ true)
unfolding has any
has-split e x [] after h = ground arith
has-split e x (y ∷ before) after h = ground (arith, has-split e x before after)

has-cons : (e x : ℕ) (xs : List ℕ) → has e xs ≡ true → has e (x ∷ xs) ≡ true
unfolding has any
has-cons e x xs h = ground arith

has-head : (x : ℕ) (xs : List ℕ) → has x (x ∷ xs) ≡ true
unfolding has any
has-head x xs = ground arith

gated-open :
    (now : ℕ) (gate : Gate)
    → paused_until now gate.state ≡ none
    → gated now gate ≡ (record gate { quiesce = enter gate.quiesce }, reached_store)
unfolding gated assert_writable
gated-open now gate h = ground arith

gated-paused :
    (now : ℕ) (gate : Gate) (until : ℕ)
    → paused_until now gate.state ≡ some until
    → gated now gate ≡ (record gate { refusals = gate.refusals + 1 }, rejected until)
unfolding gated assert_writable
gated-paused now gate until h = ground arith

gated-counts :
    (method : StoreMethod) (now : ℕ) (gate : Gate) (running : List Work)
    → gate.quiesce.in_flight ≡ length running
    → ((gated now gate).0.quiesce.in_flight
        ≡ length (tracked_if true (gated now gate).1 method running))
      × ((gated now gate).0.quiesce.signature_floor_ms ≡ gate.quiesce.signature_floor_ms)
unfolding enter
gated-counts method now gate running h = elim (Option-cases (paused_until now gate.state)) [
  | inl writable ↦ rw (gated-open now gate writable) (omega arith, refl)
  | inr (until, paused) ↦ rw (gated-paused now gate until paused) (h, refl)
]

begin-counts :
    (method : StoreMethod) (now : ℕ) (gate : Gate) (running : List Work)
    → gate.quiesce.in_flight ≡ length running
    → ((begin method now gate).0.quiesce.in_flight
        ≡ length (tracked_if (goes_through_gate method) (begin method now gate).1 method running))
      × ((begin method now gate).0.quiesce.signature_floor_ms ≡ gate.quiesce.signature_floor_ms)
unfolding begin
begin-counts method now gate running h = elim (Bool-cases (goes_through_gate method)) [
  | inr plain ↦ rw plain (h, refl)
  | inl through ↦ rw through (gated-counts method now gate running h)
]

-- What a note does to one covered signature.
still_covered :
    (floor raised e expiry : ℕ) (before after : List ℕ)
    → floor ≤ raised
    → expiry ≤ raised
    → (e ≤ floor) ⊎ (has e (before ++ expiry ∷ after) ≡ true)
    → (e ≤ raised) ⊎ (has e (before ++ after) ≡ true)
still_covered floor raised e expiry before after low high (inl under) = inl (omega arith)
still_covered floor raised e expiry before after low high (inr waiting) =
    elim (has-split e expiry before after waiting) [
      | inl same ↦ inl (omega arith)
      | inr other ↦ inr other
    ]

also_unnoted :
    (floor e expiry : ℕ) (unnoted : List ℕ)
    → (e ≤ floor) ⊎ (has e unnoted ≡ true)
    → (e ≤ floor) ⊎ (has e (expiry ∷ unnoted) ≡ true)
also_unnoted floor e expiry unnoted (inl under) = inl under
also_unnoted floor e expiry unnoted (inr waiting) = inr (has-cons e expiry unnoted waiting)

note_signature-floor :
    (expiry : ℕ) (q : IngestQuiesce)
    → (q.signature_floor_ms ≤ (note_signature (some expiry) q).signature_floor_ms)
      × (expiry ≤ (note_signature (some expiry) q).signature_floor_ms)
      × ((note_signature (some expiry) q).in_flight ≡ q.in_flight)
unfolding note_signature
note_signature-floor expiry q = ground arith

leave-counts :
    (q : IngestQuiesce) (n : ℕ)
    → q.in_flight ≡ suc n
    → ((leave q).in_flight ≡ n) × ((leave q).signature_floor_ms ≡ q.signature_floor_ms)
unfolding leave
leave-counts q n h = ground arith

at_floor :
    (floor other : ℕ) (unnoted signatures : List ℕ)
    → other ≡ floor
    → Covered floor unnoted signatures
    → Covered other unnoted signatures
at_floor floor other unnoted signatures e h = subst (λ f. Covered f unnoted signatures) (sym e) h

Step-Accounted : (v w : World) → Step v w → Accounted v → Accounted w
unfolding Accounted call with_quiesce enter
Step-Accounted _ _ (called method now w) h =
    let counts = begin-counts method now w.gate w.running h.0 in (counts.0, rw counts.1 h.1)
Step-Accounted _ _ (tracked w) h = (omega (arith, h.0), h.1)
Step-Accounted _ _ (settled work before after w split) h =
    let left =
      leave-counts w.gate.quiesce (length (before ++ after))
        (h.0 ∙ ap length split ∙ length-split before after work) in
    (left.0, rw left.1 h.1)
Step-Accounted _ _ (signed expiry before after w split) h =
    let left =
      leave-counts w.gate.quiesce (length (before ++ after))
        (h.0 ∙ ap length split ∙ length-split before after (store_call sign_staging_upload)) in
    (
      left.0,
      at_floor w.gate.quiesce.signature_floor_ms (leave w.gate.quiesce).signature_floor_ms
          (expiry ∷ w.unnoted) (expiry ∷ w.signatures) left.1
          (
            inr (has-head expiry w.unnoted),
            All-mono w.signatures
                (λ e. also_unnoted w.gate.quiesce.signature_floor_ms e expiry w.unnoted) h.1,
          ),
    )
Step-Accounted _ _ (noted expiry before after w split) h =
    let raised = note_signature-floor expiry w.gate.quiesce in
    (
      raised.2 ∙ h.0,
      All-mono w.signatures
          (λ e c.
            still_covered w.gate.quiesce.signature_floor_ms
              (note_signature (some expiry) w.gate.quiesce).signature_floor_ms e expiry before after
              raised.0 raised.1
              (subst (λ us. (e ≤ w.gate.quiesce.signature_floor_ms) ⊎ (has e us ≡ true)) split c))
          h.1,
    )
Step-Accounted _ _ (refreshed pause w) h = h
Step-Accounted _ _ (refresh_failed w) h = h

Reaches-Accounted : (w : World) → Reaches first_world w → Accounted w
unfolding Accounted
Reaches-Accounted _ here = (refl, tt)
Reaches-Accounted _ (then_step v w reached step) =
    Step-Accounted v w step (Reaches-Accounted v reached)

nothing_waits : (e : ℕ) (xs : List ℕ) → xs ≡ [] → has e xs ≡ true → ⊥
unfolding has any
nothing_waits e [] h k = ground arith
nothing_waits e (x ∷ xs) h k = ground arith

covered_lapsed :
    (now floor e : ℕ) (unnoted : List ℕ)
    → floor ≤ now
    → unnoted ≡ []
    → (e ≤ floor) ⊎ (has e unnoted ≡ true)
    → e ≤ now
covered_lapsed now floor e unnoted low none_left (inl under) = omega arith
covered_lapsed now floor e unnoted low none_left (inr waiting) =
    absurd (nothing_waits e unnoted none_left waiting)

length-zero : {A : Type 0} (xs : List A) → length xs ≡ 0 → xs ≡ []
length-zero [] h = refl
length-zero (x ∷ xs) h = absurd (ground arith)

is_quiesced-facts :
    (now : ℕ) (q : IngestQuiesce)
    → is_quiesced now q ≡ true
    → (q.in_flight ≡ 0) × (q.signature_floor_ms ≤ now)
unfolding is_quiesced
is_quiesced-facts now q h = ground arith

-- The work that is tracked has all settled and every signature that the store has ever handed out has
-- lapsed, in every world that calls, deferred work and refreshes in any order lead to, once the
-- accounting is quiet at `now` and no settled `signStagingUpload` call has its note still to come.
pub quiet_means_quiet :
    (w : World) (now : ℕ)
    → Reaches first_world w
    → w.unnoted ≡ []
    → is_quiesced now w.gate.quiesce ≡ true
    → (w.running ≡ []) × All (λ e. e ≤ now) w.signatures
unfolding Accounted
quiet_means_quiet w now reached noted_all quiet =
    let accounted = Reaches-Accounted w reached in
    let facts = is_quiesced-facts now w.gate.quiesce quiet in
    (
      length-zero w.running (sym accounted.0 ∙ facts.0),
      All-mono w.signatures
          (λ e. covered_lapsed now w.gate.quiesce.signature_floor_ms e w.unnoted facts.1 noted_all)
          accounted.1,
    )

-- Between the settling of the last `signStagingUpload` call and its note, the accounting is quiet
-- while the signature that the call got is still to lapse: a step from any world where that call is
-- the only work leads there, for every expiry after `now`.
pub quiet_before_note :
    (w : World) (now expiry : ℕ)
    → Reaches first_world w
    → w.running ≡ store_call sign_staging_upload ∷ []
    → w.gate.quiesce.signature_floor_ms ≤ now
    → now < expiry
    → (v : World) × (Step w v
        × (is_quiesced now v.gate.quiesce ≡ true)
        × (v.signatures ≡ expiry ∷ w.signatures)
        × (v.running ≡ []))
unfolding Accounted with_quiesce is_quiesced
quiet_before_note w now expiry reached alone floor ahead =
    let accounted = Reaches-Accounted w reached in
    let left = leave-counts w.gate.quiesce 0 (accounted.0 ∙ ap length alone) in
    (
      record (with_quiesce leave w) {
        running = [];
        signatures = expiry ∷ w.signatures;
        unnoted = expiry ∷ w.unnoted;
      },
      (signed expiry [] [] w alone, ground (arith, left.0, left.1), refl, refl),
    )
