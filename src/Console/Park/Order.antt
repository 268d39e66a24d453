-- ===== src/Console/Park/Order.antt =====
-- src/console/artifact-replay.ts: the order of a replay.
use hx_fortress.Prelude.{
  append_nested, append_nil, Among-left, Among-right, ℕ, ◌≤◌, ◌≡◌, refl, sym, ap, subst, ◌∙◌, ◌⊎◌,
  inl, inr, Bool, true, false, Option, none, some, List, [], ◌∷◌, ◌++◌, arith, ltb, Bool-cases,
  nat_eq, All, Among, text_eq,
}
use hx_fortress.Console.Park.{
  ParkedArtifact, ParkFiles, entries_of, park_artifact, park_all, unlink_draining, return_orphans,
  move_park, rename_park, comes_first, put_entry, put_all, by_parked_at, Written, ReplayResult,
  no_replay, replayed_as, replay, drain_once,
}

abbrev pub is_stamped : Option ℕ → Bool
is_stamped none = false
is_stamped (some t) = true

abbrev pub time_of : Option ℕ → ℕ
time_of none = 0
time_of (some t) = t

abbrev pub AllStamped : List ParkedArtifact → Type 0
AllStamped entries = All (λ e. is_stamped (ParkedArtifact.parked_at e) ≡ true) entries

-- No entry stands behind one that was parked later.
abbrev pub InOrder : List ParkedArtifact → Type 0
InOrder [] = Unit {0}
InOrder (e ∷ entries) =
    All (λ d. time_of e.parked_at ≤ time_of (ParkedArtifact.parked_at d)) entries × InOrder entries

comes_first-times :
    (a b : Option ℕ)
    → is_stamped a ≡ true
    → is_stamped b ≡ true
    → comes_first a b ≡ ltb (time_of a) (time_of b)
comes_first-times none b h k = absurd (ground (arith, h))
comes_first-times (some a) none h k = absurd (ground (arith, k))
comes_first-times (some a) (some b) h k = refl

-- The entry put in a list stands there beside the others, and nothing else does.
All-put :
    (P : ParkedArtifact → Type 0) (entry : ParkedArtifact) (entries : List ParkedArtifact)
    → P entry
    → All P entries
    → All P (put_entry entries entry)
unfolding put_entry
All-put P entry [] p h = (p, _)
All-put P entry (held ∷ entries) p h =
    elim (Bool-cases (comes_first entry.parked_at held.parked_at)) [
      | inl before ↦ rw before (p, h)
      | inr after ↦ rw after (h.0, All-put P entry entries p h.1)
    ]

All-below :
    (n m : ℕ) (entries : List ParkedArtifact)
    → n ≤ m
    → All (λ d. m ≤ time_of (ParkedArtifact.parked_at d)) entries
    → All (λ d. n ≤ time_of (ParkedArtifact.parked_at d)) entries
All-below n m [] le h = _
All-below n m (d ∷ entries) le h = (omega (arith, le, h.0), All-below n m entries le h.1)

put_entry-InOrder :
    (entry : ParkedArtifact) (entries : List ParkedArtifact)
    → is_stamped entry.parked_at ≡ true
    → AllStamped entries
    → InOrder entries
    → InOrder (put_entry entries entry)
unfolding put_entry
put_entry-InOrder entry [] s all h = (_, _)
put_entry-InOrder entry (held ∷ entries) s all h =
    let times = comes_first-times entry.parked_at held.parked_at s all.0 in
    elim (Bool-cases (comes_first entry.parked_at held.parked_at)) [
      | inl before ↦
          let less : time_of entry.parked_at ≤ time_of held.parked_at =
            ground (arith, before, times) in
          rw before ((less, All-below _ (time_of held.parked_at) entries less h.0), h)
      | inr after ↦
          let more : time_of held.parked_at ≤ time_of entry.parked_at =
            ground (arith, after, times) in
          rw after (
            All-put (λ d. time_of held.parked_at ≤ time_of (ParkedArtifact.parked_at d)) entry
                entries more h.0,
            put_entry-InOrder entry entries s all.1 h.1,
          )
    ]

put_all-InOrder :
    (sorted entries : List ParkedArtifact)
    → AllStamped sorted
    → InOrder sorted
    → AllStamped entries
    → InOrder (put_all sorted entries)
unfolding put_all
put_all-InOrder sorted [] s h all = h
put_all-InOrder sorted (entry ∷ entries) s h all =
    put_all-InOrder (put_entry sorted entry) entries
      (All-put (λ d. is_stamped (ParkedArtifact.parked_at d) ≡ true) entry sorted all.0 s)
      (put_entry-InOrder entry sorted all.0 s h) all.1

put_entry-Among :
    (e entry : ParkedArtifact) (entries : List ParkedArtifact)
    → (e ≡ entry) ⊎ Among e entries
    → Among e (put_entry entries entry)
unfolding put_entry
put_entry-Among e entry [] (inl at) = inl at
put_entry-Among e entry [] (inr there) = elim there [ ]
put_entry-Among e entry (held ∷ entries) which =
    elim (Bool-cases (comes_first entry.parked_at held.parked_at)) [
      | inl before ↦ rw before (elim which [ inl at ↦ inl at | inr there ↦ inr there ])
      | inr after ↦ rw after (elim which [
        | inl at ↦ inr (put_entry-Among e entry entries (inl at))
        | inr there ↦ elim there [
          | inl same ↦ inl same
          | inr rest ↦ inr (put_entry-Among e entry entries (inr rest))
        ]
      ])
    ]

pub put_all-Among :
    (e : ParkedArtifact) (sorted entries : List ParkedArtifact)
    → Among e sorted ⊎ Among e entries
    → Among e (put_all sorted entries)
unfolding put_all
put_all-Among e sorted [] (inl there) = there
put_all-Among e sorted [] (inr there) = elim there [ ]
put_all-Among e sorted (entry ∷ entries) which =
    put_all-Among e (put_entry sorted entry) entries (elim which [
      | inl there ↦ inl (put_entry-Among e entry sorted (inr there))
      | inr there ↦ elim there [
        | inl same ↦ inl (put_entry-Among e entry sorted (inl same))
        | inr rest ↦ inr rest
      ]
    ])

by_parked_at-InOrder :
    (entries : List ParkedArtifact) (e : ParkedArtifact)
    → AllStamped entries
    → Among e entries
    → InOrder (by_parked_at entries) × Among e (by_parked_at entries)
by_parked_at-InOrder entries e all there =
    (put_all-InOrder [] entries _ _ all, put_all-Among e [] entries (inr there))

-- What a drain has set aside when it replays: the park, and behind it the orphans.
park_all-park :
    (e : ParkedArtifact) (es : List ParkedArtifact) (files : ParkFiles)
    → (park_all (e ∷ es) files).park ≡ some (entries_of files.park ++ e ∷ es)
unfolding park_all park_artifact
park_all-park e [] files = refl
park_all-park e (d ∷ es) files =
    park_all-park d es (park_artifact e files)
    ∙ ap some (append_nested (entries_of files.park) e (d ∷ es))

aside : ParkFiles → List ParkedArtifact
aside files = (rename_park (return_orphans files)).draining

aside-all :
    (park : Option (List ParkedArtifact)) (draining : List ParkedArtifact)
    → aside (record { park = park; draining = draining }) ≡ entries_of park ++ draining
unfolding aside rename_park return_orphans
aside-all none [] = refl
aside-all (some entries) [] = sym (append_nil entries)
aside-all park (d ∷ ds) =
    let files : ParkFiles = record { park = park; draining = d ∷ ds } in
    ap (λ q. (move_park q (unlink_draining (park_all (d ∷ ds) files))).draining)
      (park_all-park d ds files)

All-append :
    (P : ParkedArtifact → Type 0) (xs ys : List ParkedArtifact)
    → All P xs
    → All P ys
    → All P (xs ++ ys)
All-append P [] ys h k = k
All-append P (x ∷ xs) ys h k = (h.0, All-append P xs ys h.1 k)

module _ {W : Type 0} (write : ParkedArtifact → W → Written × W) where
  -- The same store, with what it was asked to write, in that order.
  abbrev pub noting : ParkedArtifact → List ParkedArtifact × W → Written × (List ParkedArtifact × W)
  noting entry asked = ((write entry asked.1).0, (asked.0 ++ entry ∷ [], (write entry asked.1).1))

  replay-asked :
      (todo : List ParkedArtifact) (result : ReplayResult) (asked : List ParkedArtifact × W)
      → (replay noting todo (result, asked)).1.0 ≡ asked.0 ++ todo
  unfolding replay
  replay-asked [] result asked = sym (append_nil asked.0)
  replay-asked (entry ∷ todo) result asked =
      let written = noting entry asked in
      replay-asked todo (replayed_as noting entry written.0 result) written.1
      ∙ append_nested asked.0 entry todo

  -- One drain, of a park and orphans whose entries all have the instant at which they were parked: the
  -- store is asked to write them in the order of those instants, whatever the order in the files and
  -- whatever it answers, and it is asked for each of them. So within one drain no older sidecar is
  -- written after a newer one; nothing is said of an entry that the store refuses and a later drain
  -- writes.
  pub drain_once-InOrder :
      (files : ParkFiles) (world : W) (e : ParkedArtifact)
      → AllStamped (entries_of files.park)
      → AllStamped files.draining
      → Among e (entries_of files.park) ⊎ Among e files.draining
      → let asked = (drain_once noting files ([], world)).0.1.0 in InOrder asked × Among e asked
  unfolding drain_once aside
  drain_once-InOrder files world e park orphans which =
      let all = aside-all files.park files.draining in
      let stamped : AllStamped (aside files) =
        subst AllStamped (sym all)
          (All-append _ (entries_of files.park) files.draining park orphans) in
      let there : Among e (aside files) = subst (Among e) (sym all) (elim which [
        | inl parked ↦ Among-left e (entries_of files.park) files.draining parked
        | inr orphan ↦ Among-right e (entries_of files.park) files.draining orphan
      ]) in
      subst (λ asked. InOrder asked × Among e asked)
        (sym (replay-asked (by_parked_at (aside files)) no_replay ([], world)))
        (by_parked_at-InOrder (aside files) e stamped there)
