-- ===== src/Platform/Toy.antt =====
-- A runtime that meets what `Platform` asks: digests are the texts themselves, and a date is written
-- as one code unit. The tests run on it.
use hx_fortress.Prelude.{ℕ, ◌≤◌, ◌≡◌, ◌≢◌, refl, Text, [], ◌∷◌, Option, none, some, arith}
use hx_fortress.Platform.{Platform, max_date}

abbrev pub toy_parse : Text → Option ℕ
toy_parse [] = none
toy_parse (c ∷ []) = some c
toy_parse (c ∷ d ∷ cs) = none

pub toy_parse-iso : (n : ℕ) → n ≤ max_date → toy_parse (n ∷ []) ≡ some n
toy_parse-iso n h = refl

pub toy-nonempty : (n : ℕ) → n ∷ [] ≢ []
toy-nonempty n e = ground (arith, e)

abbrev pub toy : Platform
toy = record {
  sha256 = λ t. t;
  hex_bytes = λ t. t;
  hex_bytes-sha256 = λ a b e. e;
  to_iso = λ n. n ∷ [];
  date_parse = toy_parse;
  date_parse-to_iso = toy_parse-iso;
  to_iso-nonempty = toy-nonempty;
}
