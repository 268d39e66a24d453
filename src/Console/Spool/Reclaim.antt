-- ===== src/Console/Spool/Reclaim.antt =====
-- src/console/audit-spool.ts, `planSpoolReclaim`: which files a writer gives up, and what it announces.
use hx_fortress.Prelude.{
  append_nested, append_nil, ℕ, zero, suc, ◌+◌, ◌-◌, ◌≤◌, ◌≡◌, refl, sym, ap, subst, ◌∙◌, ◌⊎◌, inl,
  inr, Bool, true, false, ◌||◌, not, List, [], ◌∷◌, ◌++◌, arith, Bool-cases, nat_eq, length,
  keep_if, Text, text_eq,
}
use hx_fortress.Console.Spool.{
  SpoolWriter, SpoolFile, SpoolUsage, SpoolCaps, over_spool_cap, total_bytes, ReclaimPlan,
  empty_plan, is_candidate, choose_file, less_file, plan_files, plan_spool_reclaim,
}

-- What is left of a usage without some files.
unfoldable pub usage_without : List SpoolFile → SpoolUsage → SpoolUsage
usage_without [] usage = usage
usage_without (file ∷ files) usage =
    usage_without files
      (record { n_files = usage.n_files - 1; n_bytes = usage.n_bytes - file.file_bytes })

module _ (times_of : SpoolFile → List ℕ) (who : SpoolWriter) (keep : List Text)
    (caps : SpoolCaps) where
  -- What a plan chooses of some files: the first candidates, as many as it takes.
  pub record IsPlan (files : List SpoolFile) (usage : SpoolUsage) (before after : ReclaimPlan)
      : Type 0 where
    pub taken : List SpoolFile
    pub left : List SpoolFile
    pub is_chosen : after.chosen ≡ before.chosen ++ taken
    pub is_oldest : taken ++ left ≡ keep_if (is_candidate times_of who keep caps) files
    pub is_enough : over_spool_cap (usage_without taken usage) caps ≡ true → left ≡ []
    pub is_needed :
        (xs : List SpoolFile) (x : SpoolFile) (ys : List SpoolFile)
        → taken ≡ xs ++ x ∷ ys
        → over_spool_cap (usage_without xs usage) caps ≡ true
    pub is_announced : after.bytes_chosen ≡ before.bytes_chosen + total_bytes taken

  none_taken :
      (xs : List SpoolFile) (x : SpoolFile) (ys : List SpoolFile) (usage : SpoolUsage)
      → [] ≡ xs ++ x ∷ ys
      → over_spool_cap (usage_without xs usage) caps ≡ true
  none_taken [] x ys usage e = absurd (cc)
  none_taken (z ∷ xs) x ys usage e = absurd (cc)

  one_taken :
      (file : SpoolFile) (taken : List SpoolFile) (usage : SpoolUsage)
      → over_spool_cap usage caps ≡ true
      → (xs : List SpoolFile) (x : SpoolFile) (ys : List SpoolFile)
      → ((vs : List SpoolFile) (v : SpoolFile) (ws : List SpoolFile)
          → taken ≡ vs ++ v ∷ ws
          → over_spool_cap (usage_without vs (less_file times_of who keep caps file usage)) caps
            ≡ true)
      → file ∷ taken ≡ xs ++ x ∷ ys
      → over_spool_cap (usage_without xs usage) caps ≡ true
  unfolding usage_without
  one_taken file taken usage over [] x ys needed e = over
  one_taken file taken usage over (z ∷ xs) x ys needed e =
      let same : file ≡ z = cc in
      let rest : taken ≡ xs ++ x ∷ ys = cc in
      subst
        (λ f.
          over_spool_cap (usage_without xs (less_file times_of who keep caps f usage)) caps ≡ true)
        same (needed xs x ys rest)

  plan_files-IsPlan :
      (files : List SpoolFile) (usage : SpoolUsage) (plan : ReclaimPlan)
      → IsPlan files usage plan (plan_files times_of who keep caps files usage plan)
  unfolding plan_files usage_without keep_if total_bytes choose_file
  plan_files-IsPlan [] usage plan = record {
    taken = [];
    left = [];
    is_chosen = sym (append_nil plan.chosen);
    is_oldest = refl;
    is_enough = λ over. refl;
    is_needed = λ xs x ys e. none_taken xs x ys usage e;
    is_announced = omega arith;
  }
  plan_files-IsPlan (file ∷ files) usage plan = elim (Bool-cases (over_spool_cap usage caps)) [
    | inr within ↦ record {
      taken = [];
      left = keep_if (is_candidate times_of who keep caps) (file ∷ files);
      is_chosen = rw within (sym (append_nil plan.chosen));
      is_oldest = refl;
      is_enough = λ over. absurd (ground (arith, within, over));
      is_needed = λ xs x ys e. none_taken xs x ys usage e;
      is_announced = rw within (omega arith);
    }
    | inl over ↦ elim (Bool-cases (is_candidate times_of who keep caps file)) [
      | inr other ↦
          let rest = plan_files-IsPlan files usage plan in
          record {
            taken = rest.taken;
            left = rest.left;
            is_chosen = ground (arith, over, other, rest.is_chosen);
            is_oldest = ground (arith, other, rest.is_oldest);
            is_enough = rest.is_enough;
            is_needed = rest.is_needed;
            is_announced = ground (arith, over, other, rest.is_announced);
          }
      | inl own ↦
          let rest =
            plan_files-IsPlan files (less_file times_of who keep caps file usage)
              (choose_file times_of who keep caps file plan) in
          record {
            taken = file ∷ rest.taken;
            left = rest.left;
            is_chosen =
                ground
                  (arith, over, own, rest.is_chosen ∙ append_nested plan.chosen file rest.taken);
            is_oldest = ground (arith, own, rest.is_oldest);
            is_enough = rest.is_enough;
            is_needed = λ xs x ys e. one_taken file rest.taken usage over xs x ys rest.is_needed e;
            is_announced = ground (arith, over, own, rest.is_announced);
          }
    ]
  ]

  abbrev pub is_empty : List SpoolFile → Bool
  is_empty [] = true
  is_empty (file ∷ files) = false

  -- The usage that a plan starts from: the files, and the room that the caller is about to take.
  abbrev pub usage_of : SpoolUsage → List SpoolFile → SpoolUsage
  usage_of reserve files = record {
    n_files = length files + reserve.n_files;
    n_bytes = total_bytes files + reserve.n_bytes;
  }

  enough_bool :
      (over : Bool) (left : List SpoolFile)
      → (over ≡ true → left ≡ [])
      → not over || is_empty left ≡ true
  enough_bool false left h = refl
  enough_bool true [] h = refl
  enough_bool true (file ∷ left) h = absurd (ground (arith, h refl))

  -- The first files of a list, so many of them.
  unfoldable pub first_files : ℕ → List SpoolFile → List SpoolFile
  first_files zero files = []
  first_files (suc n) [] = []
  first_files (suc n) (file ∷ files) = file ∷ first_files n files

  -- A list goes on after its first so many files, or it has no more.
  goes_on :
      (n : ℕ) (files : List SpoolFile)
      → (length files ≤ n)
        ⊎ ((x : SpoolFile) × ((ys : List SpoolFile) × (files ≡ first_files n files ++ x ∷ ys)))
  unfolding first_files
  goes_on zero [] = inl (omega arith)
  goes_on zero (file ∷ files) = inr (file, (files, refl))
  goes_on (suc n) [] = inl (omega arith)
  goes_on (suc n) (file ∷ files) = elim (goes_on n files) [
    | inl ends ↦ inl (omega (arith, ends))
    | inr (x, (ys, e)) ↦ inr (x, (ys, ap (λ rest. file ∷ rest) e))
  ]

  -- What a plan to reclaim gives up are the oldest of the writer's own files that are not to be kept, and no
  -- other; they bring the usage, with the room reserved, within the caps, or they are all of those files,
  -- also where it gives up none; none of them is needless, since any fewer of the oldest leave the usage over
  -- a cap; and the bytes it announces are those of the files.
  pub plan_reclaims :
      (reserve : SpoolUsage) (files : List SpoolFile) (n : ℕ)
      → ((left : List SpoolFile) × (((plan_spool_reclaim times_of who keep caps reserve
                  files).chosen
                ++ left
              ≡ keep_if (is_candidate times_of who keep caps) files)
            × (not (
                    over_spool_cap
                      (usage_without
                        (plan_spool_reclaim times_of who keep caps reserve files).chosen
                        (usage_of reserve files))
                      caps)
                  || is_empty left
                ≡ true)))
        × ((length (plan_spool_reclaim times_of who keep caps reserve files).chosen ≤ n)
            ⊎ (over_spool_cap
                  (usage_without
                    (first_files n (plan_spool_reclaim times_of who keep caps reserve files).chosen)
                    (usage_of reserve files))
                  caps
                ≡ true))
        × ((plan_spool_reclaim times_of who keep caps reserve files).bytes_chosen
            ≡ total_bytes (plan_spool_reclaim times_of who keep caps reserve files).chosen)
  unfolding plan_spool_reclaim
  plan_reclaims reserve files n =
      let plan = plan_files-IsPlan files (usage_of reserve files) empty_plan in
      (
        (
          plan.left,
          (
            ap (λ t. t ++ plan.left) plan.is_chosen ∙ plan.is_oldest,
            enough_bool _ plan.left (λ over. plan.is_enough (
                subst (λ t. over_spool_cap (usage_without t (usage_of reserve files)) caps ≡ true)
                  plan.is_chosen over)),
          ),
        ),
        elim (goes_on n (plan_spool_reclaim times_of who keep caps reserve files).chosen) [
          | inl ends ↦ inl ends
          | inr (x, (ys, e)) ↦ inr (plan.is_needed _ x ys (sym plan.is_chosen ∙ e))
        ],
        omega (arith, plan.is_announced, ap total_bytes plan.is_chosen),
      )
