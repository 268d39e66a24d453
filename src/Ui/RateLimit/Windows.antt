-- ===== src/Ui/RateLimit/Windows.antt =====
-- What the counting windows promise: at most twice the limit in any span of a window's length, an
-- honest Retry-After, and sweeps that no caller can notice.
use hx_fortress.Prelude.{
  ℕ, ◌+◌, ◌-◌, ◌*◌, ◌≤◌, ◌<◌, ◌≡◌, refl, ap, inl, inr, false, Text, text_eq, text_beq_iff, List, [],
  ◌∷◌, Option, none, some, if◌then◌else◌, ◌==◌, leb, ltb, arith, get, IsMap, get-set_self,
  get-set_ne, get-prune, set-IsMap, prune-IsMap, Bool-cases, Option-cases, beq_ne, prune-pruned,
}
use hx_fortress.Ui.RateLimit.{
  BucketName, sign_in, policy_of, BucketPolicy, BucketVerdict, granted, refused, CountingWindow,
  Windows, window_key, lapsed, take_with, take, longest, sweep, size,
}
use hx_fortress.Ui.RateLimit.Keys.{window_key-injective}

-- Calls of the limiter, in the order in which the server makes them.
pub data Event : Type 0 where
  takes : BucketName → Text → ℕ → Event
  sweeps : ℕ → Event

unfoldable pub step : Windows → Event → Windows
step ws (takes b k now) = (take b k now ws).0
step ws (sweeps now) = (sweep now ws).0

abbrev pub grant_count : BucketVerdict → ℕ
grant_count granted = 1
grant_count (refused r) = 0

-- How many calls of `take` for this bucket and key were let through.
unfoldable pub grants : BucketName → Text → List Event → Windows → ℕ
unfolding step
grants b k [] ws = 0
grants b k (sweeps now ∷ es) ws = grants b k es (step ws (sweeps now))
grants b k (takes c j now ∷ es) ws =
    (if window_key c j == window_key b k then grant_count (take c j now ws).1 else 0)
    + grants b k es (step ws (takes c j now))

abbrev pub Within : ℕ → ℕ → Event → Type 0
Within from span (takes b k now) = (from ≤ now) × (now < from + span)
Within from span (sweeps now) = (from ≤ now) × (now < from + span)

abbrev pub AllWithin : ℕ → ℕ → List Event → Type 0
AllWithin from span [] = Unit {0}
AllWithin from span (e ∷ es) = Within from span e × AllWithin from span es

window_ms-eq : (b : BucketName) → (policy_of b).window_ms ≡ 60_000
window_ms-eq sign_in = refl
window_ms-eq _ = refl

limit_pos : (b : BucketName) → 0 < (policy_of b).limit
limit_pos sign_in = omega arith
limit_pos _ = omega arith

longest-eq : longest ≡ 60_000
unfolding longest
longest-eq = refl

-- What a key can still be granted before `from + 60_000`.
abbrev budget : ℕ → ℕ → Option CountingWindow → ℕ
budget from limit none = limit
budget from limit (some w) = if leb from w.start then limit - w.count else (limit - w.count) + limit

budget_le : (from limit : ℕ) (o : Option CountingWindow) → budget from limit o ≤ 2 * limit
budget_le from limit none = omega arith
budget_le from limit (some w) = ground arith

-- A call for one key: what it is granted comes out of the key's budget.
take_with-budget :
    (key : Text) (p : BucketPolicy) (from now : ℕ) (ws : Windows)
    → 0 < p.limit
    → from ≤ now
    → now < from + p.window_ms
    → grant_count (take_with key p now ws).1
        + budget from p.limit (get key (take_with key p now ws).0)
      ≤ budget from p.limit (get key ws)
unfolding take_with
take_with-budget key p from now ws pos lo hi = elim (Option-cases (get key ws)) [
  | inl e ↦ rw (e, take_with) (rw (get-set_self key fresh ws) (ground arith))
  | inr (w, e) ↦
      ground (
        arith,
        e,
        get-set_self key fresh ws,
        get-set_self key (record w { count = w.count + 1 }) ws,
      )
]
  where
    fresh : CountingWindow
    fresh = record { start = now; count = 1 }

-- A call for another key leaves this one's window alone.
take_with-other :
    (key other : Text) (p : BucketPolicy) (now : ℕ) (ws : Windows)
    → (other == key) ≡ false
    → get key (take_with other p now ws).0 ≡ get key ws
unfolding take_with
take_with-other key other p now ws h = elim (Option-cases (get other ws)) [
  | inl e ↦ rw (e, take_with) (get-set_ne other key _ ws h)
  | inr (w, e) ↦ ground (
    arith,
    e,
    get-set_ne other key (record { start = now; count = 1 }) ws h,
    get-set_ne other key (record w { count = w.count + 1 }) ws h,
  )
]

sweep-budget :
    (key : Text) (from limit now : ℕ) (ws : Windows)
    → IsMap ws
    → now < from + 60_000
    → budget from limit (get key (sweep now ws).0) ≤ budget from limit (get key ws)
unfolding sweep
sweep-budget key from limit now ws m hi = elim (Option-cases (get key ws)) [
  | inl e ↦ rw (get-prune (lapsed longest now) key ws m, e) (omega arith)
  | inr (w, e) ↦ rw (get-prune (lapsed longest now) key ws m, e) (rw longest-eq (ground arith))
]

take_with-IsMap :
    (key : Text) (p : BucketPolicy) (now : ℕ) (ws : Windows)
    → IsMap ws
    → IsMap (take_with key p now ws).0
unfolding take_with
take_with-IsMap key p now ws m = elim (Option-cases (get key ws)) [
  | inl e ↦ rw (e, take_with) (set-IsMap key _ ws m)
  | inr (w, e) ↦ ground (
    arith,
    e,
    set-IsMap key (record { start = now; count = 1 }) ws m,
    set-IsMap key (record w { count = w.count + 1 }) ws m,
  )
]

step-IsMap : (e : Event) (ws : Windows) → IsMap ws → IsMap (step ws e)
unfolding step take take_with sweep
step-IsMap (sweeps now) ws m = prune-IsMap (lapsed longest now) ws m
step-IsMap (takes b k now) ws m = take_with-IsMap (window_key b k) (policy_of b) now ws m

take-budget :
    (b : BucketName) (k : Text) (from now : ℕ) (ws : Windows)
    → from ≤ now
    → now < from + 60_000
    → grant_count (take b k now ws).1
        + budget from (policy_of b).limit (get (window_key b k) (take b k now ws).0)
      ≤ budget from (policy_of b).limit (get (window_key b k) ws)
unfolding take
take-budget b k from now ws lo hi =
    take_with-budget (window_key b k) (policy_of b) from now ws (limit_pos b) lo
      (rw window_ms-eq hi)

take-other :
    (b c : BucketName) (k j : Text) (now : ℕ) (ws : Windows)
    → (window_key c j == window_key b k) ≡ false
    → get (window_key b k) (take c j now ws).0 ≡ get (window_key b k) ws
unfolding take
take-other b c k j now ws h = take_with-other (window_key b k) (window_key c j) _ now ws h

grants-budget :
    (b : BucketName) (k : Text) (from : ℕ) (es : List Event) (ws : Windows)
    → IsMap ws
    → AllWithin from 60_000 es
    → grants b k es ws ≤ budget from (policy_of b).limit (get (window_key b k) ws)
unfolding grants step
grants-budget b k from [] ws m h = omega arith
grants-budget b k from (sweeps now ∷ es) ws m h = omega (
  arith,
  grants-budget b k from es (step ws (sweeps now)) (step-IsMap (sweeps now) ws m) h.1,
  sweep-budget (window_key b k) from (policy_of b).limit now ws m h.0.1,
)
grants-budget b k from (takes c j now ∷ es) ws m h =
    elim (Bool-cases (window_key c j == window_key b k)) [
      | inl same ↦
          let (eb, ek) = window_key-injective c b j k ((text_beq_iff _ _).0 same) in
          rw (same, eb, ek)
            (omega (
              arith,
              grants-budget b k from es (take b k now ws).0 (step-IsMap (takes b k now) ws m) h.1,
              take-budget b k from now ws h.0.0 h.0.1,
            ))
      | inr other ↦ rw other (
          omega (
            arith,
            grants-budget b k from es (take c j now ws).0 (step-IsMap (takes c j now) ws m) h.1,
            ap (budget from (policy_of b).limit) (take-other b c k j now ws other),
          ))
    ]

-- In any span of a window's length, a bucket grants one key at most twice its limit, whatever
-- else is called and swept.
pub window_bound :
    (b : BucketName) (k : Text) (from : ℕ) (es : List Event) (ws : Windows)
    → IsMap ws
    → AllWithin from (policy_of b).window_ms es
    → grants b k es ws ≤ 2 * (policy_of b).limit
window_bound b k from es ws m h = omega (
  arith,
  grants-budget b k from es ws m (rw window_ms-eq at h),
  budget_le from (policy_of b).limit (get (window_key b k) ws),
)

-- A refused caller is told the truth: every call before the stated moment is refused too, and
-- the one at that moment is granted.
pub retry_after_honest :
    (b : BucketName) (k : Text) (now later wait : ℕ) (ws : Windows)
    → (take b k now ws).1 ≡ refused wait
    → now ≤ later
    → (take b k later ws).1
      ≡ (if ltb later (now + wait) then refused (now + wait - later) else granted)
unfolding take take_with
retry_after_honest b k now later wait ws h le = elim (Option-cases (get (window_key b k) ws)) [
  | inl e ↦ absurd (ground (arith, e))
  | inr (w, e) ↦ ground (arith, e)
]

take-verdict :
    (b : BucketName) (k : Text) (now : ℕ) (ws vs : Windows)
    → get (window_key b k) ws ≡ get (window_key b k) vs
    → (take b k now ws).1 ≡ (take b k now vs).1
unfolding take take_with
take-verdict b k now ws vs e = elim (Option-cases (get (window_key b k) vs)) [
  | inl n ↦ rw (e, n, take_with) refl
  | inr (w, n) ↦ ground (arith, e, n)
]

-- A call for one caller never changes the verdict on another, nor on another bucket: no two of
-- them share a window.
pub take_isolated :
    (b c : BucketName) (k j : Text) (now later : ℕ) (ws : Windows)
    → ((c ≡ b) × (j ≡ k) → ⊥)
    → (take b k later (take c j now ws).0).1 ≡ (take b k later ws).1
take_isolated b c k j now later ws h =
    take-verdict b k later (take c j now ws).0 ws
      (take-other b c k j now ws (beq_ne _ _ λ e. h (window_key-injective c b j k e)))

-- The sweep drops no window that a later call would still count by: every verdict after it is
-- the one that would have been given without it, and its count is what the table shrank by.
pub take-sweep :
    (b : BucketName) (k : Text) (now later : ℕ) (ws : Windows)
    → IsMap ws
    → now ≤ later
    → ((take b k later (sweep now ws).0).1 ≡ (take b k later ws).1)
      × (size (sweep now ws).0 + (sweep now ws).1 ≡ size ws)
unfolding sweep take take_with size
take-sweep b k now later ws m le = (
  elim (Option-cases (get (window_key b k) ws)) [
    | inl e ↦
        take-verdict b k later (sweep now ws).0 ws
          (rw (get-prune (lapsed longest now) (window_key b k) ws m, e) refl)
    | inr (w, e) ↦
        ground (
          arith,
          e,
          longest-eq,
          window_ms-eq b,
          get-prune (lapsed longest now) (window_key b k) ws m,
        )
  ],
  prune-pruned (lapsed longest now) ws,
)
