-- ===== src/Ui/SsoGrant/Consumed.antt =====
-- `ConsumedGrants` behind the verifier: a grant opens the door once.
use hx_fortress.Prelude.{
  ℕ, ◌+◌, ◌*◌, ◌≤◌, ◌<◌, ◌≡◌, ◌≢◌, sym, ap, subst, ◌∙◌, ◌⊎◌, inl, inr, true, false, Text, codes,
  text_eq, List, [], ◌∷◌, Option, none, some, leb, arith, get, IsMap, get-prune, prune-IsMap,
  set-IsMap, get-set_self, get-set_ne, beq_ne, Bool-cases, Option-cases,
}
use hx_fortress.Ui.SsoGrant.{
  console_grant_skew_seconds, Payload, ConsoleGrantClaims, accepted, Verification, verified, failed,
  Jose, GrantConfig, string_of, number_of, non_empty, sweep_seen, consume, redeem, agree,
  check_claims, clock_skew_seconds, explain_failure, conclude, with_key, verify_console_grant,
  sub_of,
}
use hx_fortress.Ui.SsoGrant.Verdicts.{accepted_facts}

-- The record of one grant, held at least until the moment `until`.
abbrev Held : Text → ℕ → List (Text × ℕ) → Type 0
Held jti expiry seen = IsMap seen × (get jti seen ≡ some expiry)

abbrev pub tolerance_ms : ℕ
tolerance_ms = console_grant_skew_seconds * 1000

consume-Held :
    (jti j : Text) (expiry e now : ℕ) (seen : List (Text × ℕ))
    → now < expiry + tolerance_ms
    → Held jti expiry seen
    → Held jti expiry (consume j e now seen).0
unfolding consume
consume-Held jti j expiry e now seen early (m, h) =
    let swept_map : IsMap (sweep_seen now seen) =
      unfold sweep_seen in prune-IsMap (λ x. leb (x + tolerance_ms) now) seen m in
    let kept : get jti (sweep_seen now seen) ≡ some expiry =
      unfold sweep_seen in
      (get-prune (λ x. leb (x + tolerance_ms) now) jti seen m ∙ rw h (ground arith)) in
    elim (Option-cases (get j (sweep_seen now seen))) [
      | inr (x, old) ↦ rw (old, consume) (swept_map, kept)
      | inl fresh ↦
          rw (fresh, consume)
            (
              set-IsMap j e (sweep_seen now seen) swept_map,
              get-set_ne j jti e (sweep_seen now seen)
                    (beq_ne j jti λ same. absurd (ground (arith, fresh, kept, same)))
                  ∙ kept,
            )
    ]

-- A grant that is consumed is on record from then on.
consume-new :
    (jti : Text) (expiry now : ℕ) (seen : List (Text × ℕ))
    → IsMap seen
    → (consume jti expiry now seen).1 ≡ true
    → Held jti expiry (consume jti expiry now seen).0
unfolding consume sweep_seen
consume-new jti expiry now seen m h = elim (Option-cases (get jti (sweep_seen now seen))) [
  | inr (x, old) ↦ absurd (ground (arith, old, h))
  | inl fresh ↦
      rw (fresh, consume)
        (
          set-IsMap jti expiry (sweep_seen now seen)
              (prune-IsMap (λ x. leb (x + tolerance_ms) now) seen m),
          get-set_self jti expiry (sweep_seen now seen),
        )
]

consume-old :
    (jti : Text) (expiry e now : ℕ) (seen : List (Text × ℕ))
    → now < expiry + tolerance_ms
    → Held jti expiry seen
    → (consume jti e now seen).1 ≡ false
unfolding consume sweep_seen
consume-old jti expiry e now seen early (m, h) =
    ground (arith, get-prune (λ x. leb (x + tolerance_ms) now) jti seen m, h)

-- The verifier changes the set by `consume`, or not at all.
redeem-Held :
    (jti : Text) (expiry : ℕ) (j : Option Text) (e : Option ℕ) (org sub : Text) (now : ℕ)
    (seen : List (Text × ℕ))
    → now < expiry + tolerance_ms
    → Held jti expiry seen
    → Held jti expiry (redeem j e org sub now seen).seen
redeem-Held jti expiry none e org sub now seen early h = h
redeem-Held jti expiry (some j) none org sub now seen early h = h
redeem-Held jti expiry (some j) (some e) org sub now seen early h =
    elim (Bool-cases (consume j e now seen).1) [
      | inl fresh ↦ rw fresh (consume-Held jti j expiry e now seen early h)
      | inr used ↦ rw used (consume-Held jti j expiry e now seen early h)
    ]

check_claims-seen :
    (cfg : GrantConfig) (c : Payload) (now : ℕ) (seen : List (Text × ℕ))
    → ((check_claims cfg c now seen).seen ≡ seen)
      ⊎ ((org : Text) × ((check_claims cfg c now seen).seen
            ≡ (redeem
                (non_empty (string_of c.jti))
                (number_of c.exp)
                org
                (sub_of (string_of c.sub))
                now
                seen).seen))
unfolding check_claims
check_claims-seen cfg c now seen =
    elim (Option-cases (agree (some (codes "console")) (string_of c.purpose))) [
      | inl e ↦ inl (ground (arith, e))
      | inr (pu, ep) ↦ elim (Bool-cases cfg.sso_enabled) [
        | inr off ↦ inl (ground (arith, ep, off))
        | inl on ↦
            elim (Option-cases (
              agree (agree (non_empty (string_of c.org)) (string_of c.aud))
                (non_empty cfg.org_id))) [
                  | inl e ↦ inl (ground (arith, ep, on, e))
                  | inr (org, eo) ↦
                      elim (Option-cases
                        (agree (non_empty cfg.public_url_origin) (string_of c.origin))) [
                          | inl e ↦ inl (ground (arith, ep, on, eo, e))
                          | inr (origin, eg) ↦ inr (org, ground (arith, ep, on, eo, eg))
                        ]
                ]
      ]
    ]

check_claims-Held :
    (jti : Text) (expiry : ℕ) (cfg : GrantConfig) (c : Payload) (now : ℕ) (seen : List (Text × ℕ))
    → now < expiry + tolerance_ms
    → Held jti expiry seen
    → Held jti expiry (check_claims cfg c now seen).seen
check_claims-Held jti expiry cfg c now seen early h = elim (check_claims-seen cfg c now seen) [
  | inl e ↦ subst (Held jti expiry) (sym e) h
  | inr (org, e) ↦ subst (Held jti expiry) (sym e) (
      redeem-Held jti expiry (non_empty (string_of c.jti)) (number_of c.exp) org
        (sub_of (string_of c.sub)) now seen early h)
]

explain_failure-seen :
    (code : Option Text) (decoded : Option Payload) (now : ℕ) (seen : List (Text × ℕ))
    → (explain_failure code decoded now seen).seen ≡ seen
unfolding explain_failure
explain_failure-seen code decoded now seen = elim (Option-cases (clock_skew_seconds decoded now)) [
  | inl e ↦ ground (arith, e)
  | inr (z, e) ↦ ground (arith, e)
]

module _ (jose : Jose) where
  verify-Held :
      (jti : Text) (expiry : ℕ) (cfg : GrantConfig) (grant : Text) (now spent_at : ℕ)
      (seen : List (Text × ℕ))
      → spent_at < expiry + tolerance_ms
      → Held jti expiry seen
      → Held jti expiry (verify_console_grant jose cfg grant now spent_at seen).seen
  unfolding verify_console_grant
  verify-Held jti expiry cfg grant now spent_at seen early h = by_key (non_empty cfg.public_key)
    where
      by_answer :
          (v : Verification)
          → Held jti expiry (conclude v cfg (jose.decode grant) now spent_at seen).seen
      by_answer (verified c) = check_claims-Held jti expiry cfg c spent_at seen early h
      by_answer (failed code) = rw (explain_failure-seen code (jose.decode grant) now seen) h

      by_key :
          (k : Option Text) → Held jti expiry (with_key jose k cfg grant now spent_at seen).seen
      by_key none = h
      by_key (some key) = by_answer (jose.verify key grant now)

  -- The door's calls in the order in which they use up their grants: a grant, the moment of its
  -- verification, and the moment at which `consume` reads the clock.
  unfoldable pub present_all :
      GrantConfig → List (Text × (ℕ × ℕ)) → List (Text × ℕ) → List (Text × ℕ)
  present_all cfg [] seen = seen
  present_all cfg ((grant, (now, spent_at)) ∷ calls) seen =
      present_all cfg calls (verify_console_grant jose cfg grant now spent_at seen).seen

  abbrev pub AllSpentBy : ℕ → List (Text × (ℕ × ℕ)) → Type 0
  AllSpentBy later [] = Unit {0}
  AllSpentBy later ((grant, (now, spent_at)) ∷ calls) = (spent_at ≤ later) × AllSpentBy later calls

  present_all-Held :
      (jti : Text) (expiry later : ℕ) (cfg : GrantConfig) (calls : List (Text × (ℕ × ℕ)))
      (seen : List (Text × ℕ))
      → later < expiry + tolerance_ms
      → AllSpentBy later calls
      → Held jti expiry seen
      → Held jti expiry (present_all cfg calls seen)
  unfolding present_all
  present_all-Held jti expiry later cfg [] seen early b h = h
  present_all-Held jti expiry later cfg ((grant, (now, spent_at)) ∷ calls) seen early b h =
      present_all-Held jti expiry later cfg calls _ early b.1
        (verify-Held jti expiry cfg grant now spent_at seen (omega arith) h)

  -- A grant opens the door once, while its use is on record: after it was accepted, and whatever is
  -- presented in between, it is not accepted again by a request that comes to use it up before 30 s after
  -- its expiry, whenever it was verified. The uses in between are not later than that one, and the record
  -- has no id twice.
  pub grant_single_use :
      (cfg : GrantConfig) (grant : Text) (now spent_at now' spent_at' : ℕ)
      (calls : List (Text × (ℕ × ℕ))) (seen : List (Text × ℕ)) (first second : ConsoleGrantClaims)
      → IsMap seen
      → (verify_console_grant jose cfg grant now spent_at seen).verdict ≡ accepted first
      → AllSpentBy spent_at' calls
      → spent_at' < first.exp + 30_000
      → (verify_console_grant jose cfg grant now' spent_at' (
          present_all cfg calls
            (verify_console_grant jose cfg grant now spent_at seen).seen)).verdict
        ≢ accepted second
  grant_single_use cfg grant now spent_at now' spent_at' calls seen first second m h before early =
      λ again.
        let (key, c, ek, ev, a, (fresh, left, note)) =
          accepted_facts jose cfg grant now spent_at seen first h in
        let (key', d, ek', ev', a', (fresh', left', note')) =
          accepted_facts jose cfg grant now' spent_at' _ second again in
        let same_key : key ≡ key' = cc (ek, ek') in
        let same : c ≡ d = jose.verify-payload key grant now now' c d ev (rw same_key ev') in
        let same_jti : second.jti ≡ first.jti =
          ground (arith, a.jti, a'.jti, ap (λ (x : Payload). x.jti) same) in
        let start : Held first.jti first.exp
            (verify_console_grant jose cfg grant now spent_at seen).seen =
          subst (Held first.jti first.exp) (sym left)
            (consume-new first.jti first.exp spent_at seen m fresh) in
        let held = present_all-Held first.jti first.exp spent_at' cfg calls _ early before start in
        let used = consume-old first.jti first.exp second.exp spent_at' _ early held in
        ground (
          arith,
          used,
          fresh',
          ap
              (λ (j : Text).
                (consume j second.exp spent_at' (
                  present_all cfg calls
                    (verify_console_grant jose cfg grant now spent_at seen).seen)).1)
              same_jti,
        )
