-- ===== src/Console/Park/Held.antt =====
-- src/console/artifact-replay.ts: no single effect of a drain, and no death of the daemon, loses a write.
use hx_fortress.Prelude.{
  Among-left, Among-right, Among-either, Among-one, ◌≡◌, refl, sym, subst, ◌⊎◌, inl, inr, none,
  some, List, [], ◌∷◌, ◌++◌, nat_eq, Among, text_eq,
}
use hx_fortress.Console.Park.{ParkedArtifact, ParkFiles, entries_of, park_artifact, unlink_draining}
use hx_fortress.Console.Park.Crashes.{
  Stage, resting, renaming, returning, replaying, reparking, World, Step, parks, dies, begins,
  returns, returned, renames, has_none, writes, fails, ends, reparks, finishes, Reaches, here,
  then_step, IsHeld, first_world,
}

-- What may be unlinked: an entry set aside is settled, back in the park, or still to be dealt with.
abbrev pub IsCovered : World → List ParkedArtifact → ParkedArtifact → Type 0
IsCovered w todo e = Among e w.settled ⊎ (Among e (entries_of w.files.park) ⊎ Among e todo)

abbrev to_do : Stage → List ParkedArtifact → List ParkedArtifact
to_do resting draining = draining
to_do renaming draining = []
to_do (returning entries) draining = entries
to_do (replaying todo failing) draining = todo ++ failing
to_do (reparking failing) draining = failing

pub record IsSafe (w : World) : Type 0 where
  pub held : (e : ParkedArtifact) → Among e w.parked → IsHeld w e
  pub covered :
      (e : ParkedArtifact)
      → Among e w.files.draining
      → IsCovered w (to_do w.stage w.files.draining) e

-- Parking adds to the park, and takes nothing from it.
parked-there :
    (e entry : ParkedArtifact) (files : ParkFiles)
    → Among e (entries_of files.park)
    → Among e (entries_of (park_artifact entry files).park)
unfolding park_artifact
parked-there e entry files there = Among-left e (entries_of files.park) (entry ∷ []) there

parked-last :
    (entry : ParkedArtifact) (files : ParkFiles)
    → Among entry (entries_of (park_artifact entry files).park)
unfolding park_artifact
parked-last entry files = Among-right entry (entries_of files.park) (entry ∷ []) (inl refl)

-- One more entry parked: what was held is held, what was covered is covered.
park-held :
    (e entry : ParkedArtifact) (w : World)
    → IsHeld w e
    → IsHeld (record w { files = park_artifact entry w.files }) e
unfolding park_artifact
park-held e entry w (inl done) = inl done
park-held e entry w (inr (inl there)) = inr (inl (parked-there e entry w.files there))
park-held e entry w (inr (inr aside)) = inr (inr aside)

park-IsCovered :
    (e entry : ParkedArtifact) (todo : List ParkedArtifact) (w : World)
    → IsCovered w todo e
    → IsCovered (record w { files = park_artifact entry w.files }) todo e
unfolding park_artifact
park-IsCovered e entry todo w (inl done) = inl done
park-IsCovered e entry todo w (inr (inl there)) = inr (inl (parked-there e entry w.files there))
park-IsCovered e entry todo w (inr (inr left)) = inr (inr left)

-- The first of what was to do has been parked.
park-first :
    (e entry : ParkedArtifact) (todo : List ParkedArtifact) (w : World)
    → IsCovered w (entry ∷ todo) e
    → IsCovered (record w { files = park_artifact entry w.files }) todo e
unfolding park_artifact
park-first e entry todo w (inl done) = inl done
park-first e entry todo w (inr (inl there)) = inr (inl (parked-there e entry w.files there))
park-first e entry todo w (inr (inr (inl same))) = inr (
    inl (
      subst (λ x. Among x (entries_of (park_artifact entry w.files).park)) (sym same)
        (parked-last entry w.files)))
park-first e entry todo w (inr (inr (inr left))) = inr (inr left)

-- With nothing left to do, what was set aside can go.
unlink-held :
    (e : ParkedArtifact) (w : World)
    → ((d : ParkedArtifact) → Among d w.files.draining → IsCovered w [] d)
    → IsHeld w e
    → IsHeld (record w { files = unlink_draining w.files }) e
unlink-held e w covered (inl done) = inl done
unlink-held e w covered (inr (inl there)) = inr (inl there)
unlink-held e w covered (inr (inr aside)) = elim (covered e aside) [
  | inl done ↦ inl done
  | inr there ↦ elim there [ inl parked ↦ inr (inl parked) | inr left ↦ elim left [ ] ]
]

at_todo :
    (stage : Stage) (w : World)
    → IsSafe w
    → w.stage ≡ stage
    → (e : ParkedArtifact) → Among e w.files.draining
    → IsCovered w (to_do stage w.files.draining) e
at_todo stage w safe at e there =
    subst (λ s. IsCovered w (to_do s w.files.draining) e) at (safe.covered e there)

-- A renaming moves the park, whole, to what is set aside.
rename-held :
    (e : ParkedArtifact) (entries todo : List ParkedArtifact) (w : World)
    → IsSafe w
    → w.stage ≡ renaming
    → w.files.park ≡ some entries
    → IsHeld w e
    → IsHeld
        (record w { files = record { park = none; draining = entries }; stage = replaying todo [] })
        e
rename-held e entries todo w safe at full (inl done) = inl done
rename-held e entries todo w safe at full (inr (inl there)) =
    inr (inr (subst (λ p. Among e (entries_of p)) full there))
rename-held e entries todo w safe at full (inr (inr aside)) =
    elim (at_todo renaming w safe at e aside) [
      | inl done ↦ inl done
      | inr there ↦ elim there [
        | inl parked ↦ inr (inr (subst (λ p. Among e (entries_of p)) full parked))
        | inr left ↦ elim left [ ]
      ]
    ]

settle-held :
    (e entry : ParkedArtifact) (todo failing : List ParkedArtifact) (w : World)
    → IsHeld w e
    → IsHeld (record w { settled = w.settled ++ entry ∷ []; stage = replaying todo failing }) e
settle-held e entry todo failing w (inl done) = inl (Among-left e w.settled (entry ∷ []) done)
settle-held e entry todo failing w (inr there) = inr there

settle-IsCovered :
    (e entry : ParkedArtifact) (todo failing : List ParkedArtifact) (w : World)
    → IsCovered w ((entry ∷ todo) ++ failing) e
    → IsCovered
        (record w { settled = w.settled ++ entry ∷ []; stage = replaying todo failing })
        (todo ++ failing)
        e
settle-IsCovered e entry todo failing w (inl done) = inl (Among-left e w.settled (entry ∷ []) done)
settle-IsCovered e entry todo failing w (inr (inl there)) = inr (inl there)
settle-IsCovered e entry todo failing w (inr (inr (inl same))) =
    inl (Among-right e w.settled (entry ∷ []) (inl same))
settle-IsCovered e entry todo failing w (inr (inr (inr left))) = inr (inr left)

fail-IsCovered :
    (e entry : ParkedArtifact) (todo failing : List ParkedArtifact) (w : World)
    → IsCovered w ((entry ∷ todo) ++ failing) e
    → IsCovered w (todo ++ (failing ++ entry ∷ [])) e
fail-IsCovered e entry todo failing w (inl done) = inl done
fail-IsCovered e entry todo failing w (inr (inl there)) = inr (inl there)
fail-IsCovered e entry todo failing w (inr (inr (inl same))) = inr (
    inr
      (Among-right e todo (failing ++ entry ∷ []) (Among-right e failing (entry ∷ []) (inl same))))
fail-IsCovered e entry todo failing w (inr (inr (inr left))) =
    elim (Among-either e todo failing left) [
      | inl early ↦ inr (inr (Among-left e todo (failing ++ entry ∷ []) early))
      | inr late ↦ inr (
          inr (Among-right e todo (failing ++ entry ∷ []) (Among-left e failing (entry ∷ []) late)))
    ]

step-IsSafe : (v w : World) → IsSafe v → Step v w → IsSafe w
unfolding park_artifact
step-IsSafe _ _ safe (parks entry w) = record {
  held = λ e there. elim (Among-either e w.parked (entry ∷ []) there) [
    | inl before ↦ park-held e entry w (safe.held e before)
    | inr at ↦ inr (
        inl (
          subst (λ x. Among x (entries_of (park_artifact entry w.files).park))
            (sym (Among-one e entry at)) (parked-last entry w.files)))
  ];
  covered =
      λ e there. park-IsCovered e entry (to_do w.stage w.files.draining) w (safe.covered e there);
}
step-IsSafe _ _ safe (dies w) = record { held = safe.held; covered = λ e there. inr (inr there) }
step-IsSafe _ _ safe (begins w at) = record {
  held = safe.held;
  covered = λ e there. inr (inr there);
}
step-IsSafe _ _ safe (returns entry entries w at) = record {
  held = λ e there. park-held e entry w (safe.held e there);
  covered = λ e there.
      park-first e entry entries w (at_todo (returning (entry ∷ entries)) w safe at e there);
}
step-IsSafe _ _ safe (returned w at) = record {
  held = λ e there. unlink-held e w (at_todo (returning []) w safe at) (safe.held e there);
  covered = λ e there. elim there [ ];
}
step-IsSafe _ _ safe (renames entries todo w at full all) = record {
  held = λ e there. rename-held e entries todo w safe at full (safe.held e there);
  covered = λ e there. inr (inr (Among-left e todo [] (all e there)));
}
step-IsSafe _ _ safe (has_none w at gone) = record {
  held = safe.held;
  covered = at_todo renaming w safe at;
}
step-IsSafe _ _ safe (writes entry todo failing w at) = record {
  held = λ e there. settle-held e entry todo failing w (safe.held e there);
  covered = λ e there.
      settle-IsCovered e entry todo failing w
        (at_todo (replaying (entry ∷ todo) failing) w safe at e there);
}
step-IsSafe _ _ safe (fails entry todo failing w at) = record {
  held = safe.held;
  covered = λ e there.
      fail-IsCovered e entry todo failing w
        (at_todo (replaying (entry ∷ todo) failing) w safe at e there);
}
step-IsSafe _ _ safe (ends failing w at) = record {
  held = safe.held;
  covered = at_todo (replaying [] failing) w safe at;
}
step-IsSafe _ _ safe (reparks entry failing w at) = record {
  held = λ e there. park-held e entry w (safe.held e there);
  covered = λ e there.
      park-first e entry failing w (at_todo (reparking (entry ∷ failing)) w safe at e there);
}
step-IsSafe _ _ safe (finishes w at) = record {
  held = λ e there. unlink-held e w (at_todo (reparking []) w safe at) (safe.held e there);
  covered = λ e there. elim there [ ];
}

reached-IsSafe : (w : World) → Reaches first_world w → IsSafe w
reached-IsSafe _ (here _) = record {
  held = λ e there. elim there [ ];
  covered = λ e there. elim there [ ];
}
reached-IsSafe _ (then_step _ t u r step) = step-IsSafe t u (reached-IsSafe t r) step

-- Wherever a daemon dies in a drain, and whatever commits park meanwhile, every write that was ever
-- parked has been written or dropped by the store, or is still in the park file or in the file that was
-- set aside, which the next drain returns to the park.
pub parked_is_held :
    (w : World) (e : ParkedArtifact) → Reaches first_world w → Among e w.parked → IsHeld w e
parked_is_held w e reached there = IsSafe.held (reached-IsSafe w reached) e there
