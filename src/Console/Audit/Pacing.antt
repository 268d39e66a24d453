-- ===== src/Console/Audit/Pacing.antt =====
-- src/console/audit-engine.ts, `Pacer`: the rate at which a run spends its operations.
use hx_fortress.Prelude.{
  ℕ, ◌+◌, ◌-◌, ◌≤◌, ◌≡◌, Option, none, some, List, [], ◌∷◌, arith, ltb, leb, if◌then◌else◌, nat_eq,
  length, text_eq,
}

pub record Pacer : Type 0 where
  pub spent : ℕ
  pub window_start : ℕ
  pub in_window : ℕ

abbrev pub new_pacer : Pacer
new_pacer = record { spent = 0; window_start = 0; in_window = 0 }

-- A window that is over begins again at the clock.
abbrev pub turned : ℕ → Pacer → Pacer
turned now p =
    if leb (p.window_start + 1000) now then record p { window_start = now; in_window = 0 } else p

-- `spend`, with the clock before and after its sleep: the sleep, if there is one, and the pacer.
unfoldable pub spend : ℕ → ℕ → ℕ → Pacer → Option ℕ × Pacer
spend ops_per_sec now woken p =
    let q = turned now (record p { spent = p.spent + 1 }) in
    if ltb ops_per_sec (q.in_window + 1)
    then (some (1000 - (now - q.window_start)), record q { window_start = woken; in_window = 0 })
    else (none, record q { in_window = q.in_window + 1 })

-- The pacer over the clocks of a run, before and after each sleep.
unfoldable pub paced : ℕ → List (ℕ × ℕ) → Pacer → Pacer
paced ops_per_sec [] p = p
paced ops_per_sec ((now, woken) ∷ clocks) p =
    paced ops_per_sec clocks (spend ops_per_sec now woken p).1

spend-counts :
    (ops_per_sec now woken : ℕ) (p : Pacer)
    → ((spend ops_per_sec now woken p).1.spent ≡ p.spent + 1)
      × ((spend ops_per_sec now woken p).1.in_window ≤ ops_per_sec)
unfolding spend
spend-counts ops_per_sec now woken p = ground arith

-- Whatever the clock does, the pacer has counted every operation, and has never more of them in its
-- window than the rate allows.
pub paced_counts :
    (ops_per_sec : ℕ) (clocks : List (ℕ × ℕ)) (p : Pacer)
    → p.in_window ≤ ops_per_sec
    → ((paced ops_per_sec clocks p).spent ≡ p.spent + length clocks)
      × ((paced ops_per_sec clocks p).in_window ≤ ops_per_sec)
unfolding paced
paced_counts ops_per_sec [] p h = (omega arith, h)
paced_counts ops_per_sec ((now, woken) ∷ clocks) p h =
    let one = spend-counts ops_per_sec now woken p in
    let rest = paced_counts ops_per_sec clocks (spend ops_per_sec now woken p).1 one.1 in
    (omega (arith, one.0, rest.0), rest.1)
