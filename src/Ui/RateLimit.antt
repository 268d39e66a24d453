-- ===== src/Ui/RateLimit.antt =====
-- src/ui/rate-limit.ts, the counting windows: `BUCKETS`, `RateLimiter`. Times are milliseconds,
-- an argument of each call; a `Map` is the list of its entries.
pub mod Keys
pub mod Windows
mod Tests
use hx_fortress.Prelude.{
  ℕ, ◌+◌, ◌-◌, ◌≡◌, ◌++◌, Bool, Text, codes, List, [], ◌∷◌, Option, none, some, if◌then◌else◌, ltb,
  leb, max, get, set, prune, pruned, length, text_eq,
}

pub record BucketPolicy : Type 0 where
  pub limit : ℕ
  pub window_ms : ℕ

pub data BucketName : Type 0 where
  sign_in public_sign_in sso_entry setup asset instance_probe control store_op audited_read :
      BucketName

-- `BUCKETS`.
abbrev pub policy_of : BucketName → BucketPolicy
policy_of sign_in = record { limit = 5; window_ms = 60_000 }
policy_of public_sign_in = record { limit = 240; window_ms = 60_000 }
policy_of sso_entry = record { limit = 240; window_ms = 60_000 }
policy_of setup = record { limit = 240; window_ms = 60_000 }
policy_of asset = record { limit = 3_000; window_ms = 60_000 }
policy_of instance_probe = record { limit = 30; window_ms = 60_000 }
policy_of control = record { limit = 30; window_ms = 60_000 }
policy_of store_op = record { limit = 60; window_ms = 60_000 }
policy_of audited_read = record { limit = 60; window_ms = 60_000 }

-- The property's name, as it stands in a window's key.
abbrev pub bucket_text : BucketName → Text
bucket_text sign_in = codes "signIn"
bucket_text public_sign_in = codes "publicSignIn"
bucket_text sso_entry = codes "ssoEntry"
bucket_text setup = codes "setup"
bucket_text asset = codes "asset"
bucket_text instance_probe = codes "instanceProbe"
bucket_text control = codes "control"
bucket_text store_op = codes "storeOp"
bucket_text audited_read = codes "auditedRead"

abbrev pub all_buckets : List BucketName
all_buckets =
    sign_in ∷ public_sign_in ∷ sso_entry ∷ setup ∷ asset ∷ instance_probe ∷ control ∷ store_op
    ∷ audited_read ∷ []

pub data BucketVerdict : Type 0 where
  granted : BucketVerdict
  refused : ℕ → BucketVerdict

pub record CountingWindow : Type 0 where
  pub start : ℕ
  pub count : ℕ

abbrev pub Windows : Type 0
Windows = List (Text × CountingWindow)

-- `${bucket}:${key}`.
unfoldable pub window_key : BucketName → Text → Text
window_key bucket key = bucket_text bucket ++ b':' ∷ key

-- `now - start >= windowMs`, without the subtraction.
abbrev pub lapsed : ℕ → ℕ → CountingWindow → Bool
lapsed span now w = leb (w.start + span) now

-- What a window that is still running answers.
unfoldable pub take_running :
    Text → BucketPolicy → ℕ → CountingWindow → Windows → Windows × BucketVerdict
take_running key policy now w windows =
    if ltb w.count policy.limit
    then (set key (record w { count = w.count + 1 }) windows, granted)
    else (windows, refused ((policy.window_ms + w.start) - now))

unfoldable pub take_with : Text → BucketPolicy → ℕ → Windows → Windows × BucketVerdict
unfolding take_running
take_with key policy now windows = elim (get key windows) [
  | none ↦ (set key (record { start = now; count = 1 }) windows, granted)
  | some w ↦
      if lapsed policy.window_ms now w
      then (set key (record { start = now; count = 1 }) windows, granted)
      else take_running key policy now w windows
]

unfoldable pub take : BucketName → Text → ℕ → Windows → Windows × BucketVerdict
unfolding take_with window_key
take bucket key now windows = take_with (window_key bucket key) (policy_of bucket) now windows

-- `Math.max(...)` over the buckets' windows.
abbrev pub longest_of : List BucketName → ℕ
longest_of [] = 0
longest_of (b ∷ bs) = max (policy_of b).window_ms (longest_of bs)

unfoldable pub longest : ℕ
longest = longest_of all_buckets

unfoldable pub sweep : ℕ → Windows → Windows × ℕ
unfolding longest
sweep now windows = (prune (lapsed longest now) windows, pruned (lapsed longest now) windows)

unfoldable pub size : Windows → ℕ
size windows = length windows
