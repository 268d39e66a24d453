-- ===== src/Platform.antt =====
-- What the program takes from its runtime and cannot be read in the repository: node's digests and
-- the dates of the JavaScript engine, with the behaviour that is documented of them.
pub mod Toy
use hx_fortress.Prelude.{ℕ, ◌≤◌, ◌≡◌, ◌≢◌, refl, Text, List, [], ◌∷◌, Option, none, some}

-- The last instant that a `Date` can hold.
abbrev pub max_date : ℕ
max_date = 8_640_000_000_000_000

pub record Platform : Type 0 where
  -- `createHash("sha256").update(t).digest("hex")`, and the bytes of such a digest.
  pub sha256 : Text → Text
  pub hex_bytes : Text → List ℕ
  pub hex_bytes-sha256 :
      (a b : Text) → hex_bytes (sha256 a) ≡ hex_bytes (sha256 b) → sha256 a ≡ sha256 b
  -- `new Date(n).toISOString()` and `Date.parse`, where `none` is `NaN`.
  pub to_iso : ℕ → Text
  pub date_parse : Text → Option ℕ
  pub date_parse-to_iso : (n : ℕ) → n ≤ max_date → date_parse (to_iso n) ≡ some n
  pub to_iso-nonempty : (n : ℕ) → to_iso n ≢ []
