-- ===== src/Ui/RateLimit/Tests.antt =====
-- The counting windows at work: two callers of the sign-in bucket.
use hx_fortress.Prelude.{
  ◌≤◌, ◌≡◌, refl, Text, codes, List, [], ◌∷◌, arith, text_beq, get, set, prune, pruned,
}
use hx_fortress.Ui.RateLimit.{sign_in, refused, Windows, window_key, take, sweep}
use hx_fortress.Ui.RateLimit.Windows.{Event, takes, sweeps, grants, window_bound}

abbrev alice : Text
alice = codes "al 7"

abbrev bob : Text
bob = codes "bo 7"

-- Five calls for alice have used her window up.
abbrev spent : Windows
spent = (window_key sign_in alice, record { start = 100; count = 5 }) ∷ []

abbrev burst : List Event
burst =
    takes sign_in alice 60_090
    ∷ sweeps 60_095
    ∷ takes sign_in bob 60_099
    ∷ takes sign_in alice 60_100
    ∷ takes sign_in alice 60_101
    ∷ []

burst-grants : grants sign_in alice burst spent ≡ 2
unfolding grants take sweep window_key text_beq get set prune pruned
burst-grants = refl

window_bound_example : grants sign_in alice burst spent ≤ 10
unfolding get
window_bound_example = window_bound sign_in alice 60_050 burst spent (refl, tt) (omega arith)

refused_at : (take sign_in alice 40_000 spent).1 ≡ refused 20_100
unfolding take window_key text_beq get
refused_at = refl
