-- ===== src/Matrix/Experiments/Again.antt =====
-- A second run of experiment A over a finished results file.
use mathlib.Core.Path.{subst}
use syncfs.Base.{
  ℕ, ◌≡◌, refl, inl, inr, true, ◌||◌, List, [], ◌∷◌, ◌++◌, map, String, ◌<>◌, arith, Bool-cases,
}
use syncfs.Base.Equality.{string_eq, pair_eq, contains, beq_refl}
use syncfs.Base.Exec.{ok}
use syncfs.Matrix.Rig.{Rig}
use syncfs.Matrix.Rows.{Key, done_cells, grid, wanted}
use syncfs.Matrix.Experiments.{Arm, B, key_a, arm_a, arms_a, experiment_a}
use syncfs.Matrix.Experiments.Resume.{todo_a, experiment_a-Appends}
use syncfs.Matrix.Experiments.Adds.{Appends}

contains-append :
    (k : Key) (xs ys : List Key) → contains k (xs ++ ys) ≡ (contains k xs || contains k ys)
contains-append k [] ys = refl
contains-append k (x ∷ xs) ys = ground (arith, contains-append k xs ys)

-- Every key of the one list is in the other.
abbrev Within : List Key → List Key → Type 0
Within xs ys = (k : Key) → contains k xs ≡ true → contains k ys ≡ true

Within-left : (xs ys : List Key) → Within xs (xs ++ ys)
Within-left xs ys k h = rw (contains-append, h)

Within-right : (xs ys : List Key) → Within ys (xs ++ ys)
Within-right xs ys k h = ground (arith, contains-append k xs ys)

Within-tail : (x : Key) (xs ys : List Key) → Within (x ∷ xs) ys → Within xs ys
Within-tail x xs ys h k m = h k (ground arith)

module _ (key : ℕ × ℕ → Key) (done all : List Key) (old : Within done all) where
  is_held :
      (c : ℕ × ℕ) (cs : List (ℕ × ℕ))
      → Within (map key (wanted key done (c ∷ cs))) all
      → contains (key c) all ≡ true
  unfolding wanted
  is_held c cs new = elim (Bool-cases (contains (key c) done)) [
    | inl there ↦ old (key c) there
    | inr missing ↦ new (key c) (rw missing (ground (arith, beq_refl (key c))))
  ]

  rest_held :
      (c : ℕ × ℕ) (cs : List (ℕ × ℕ))
      → Within (map key (wanted key done (c ∷ cs))) all
      → Within (map key (wanted key done cs)) all
  unfolding wanted
  rest_held c cs new k m = elim (Bool-cases (contains (key c) done)) [
    | inl there ↦ new k (rw there m)
    | inr missing ↦ new k (rw missing (ground (arith)))
  ]

  -- Nothing is wanted where all that was wanted has been done.
  wanted-eq-nil :
      (cs : List (ℕ × ℕ)) → Within (map key (wanted key done cs)) all → wanted key all cs ≡ []
  unfolding wanted
  wanted-eq-nil [] new = refl
  wanted-eq-nil (c ∷ cs) new = rw (is_held c cs new) (wanted-eq-nil cs (rest_held c cs new))

module _ (R : Rig) (root : String) (sizes : List ℕ) (repeats : ℕ) where
  arms_a-eq :
      (done all : List Key) (plan : List Arm) (b : B R)
      → Within done all
      → Within (todo_a R sizes repeats done plan) all
      → arms_a R root sizes repeats all plan b ≡ (ok tt, b)
  unfolding arms_a todo_a arm_a
  arms_a-eq done all [] b old new = refl
  arms_a-eq done all (a ∷ plan) b old new =
      let own : List Key = map (key_a R a) (wanted (key_a R a) done (grid sizes repeats)) in
      let later : List Key = todo_a R sizes repeats done plan in
      rw
        (wanted-eq-nil (key_a R a) done all old (grid sizes repeats)
          (λ k m. new k (Within-left own later k m)))
        (arms_a-eq done all plan b old (λ k m. new k (Within-right own later k m)))

  -- Where a run of experiment A has returned, and the staging directory can be made again, a second
  -- run makes it and does nothing else: no cluster is brought up and no row is added.
  pub experiment_a_again :
      (plan : List Arm) (b b' : B R)
      → experiment_a R root sizes repeats plan b ≡ (ok tt, b')
      → (R.mkdir (root <> "/staging") b'.rig).0 ≡ ok tt
      → experiment_a R root sizes repeats plan b'
        ≡ (ok tt, record b' { rig = (R.mkdir (root <> "/staging") b'.rig).1 })
  unfolding experiment_a
  experiment_a_again plan b b' first made = rw made (
      arms_a-eq (done_cells b.out) (done_cells b'.out) plan _
        (λ k m. rw full (Within-left (done_cells b.out) todo k m))
        (λ k m. rw full (Within-right (done_cells b.out) todo k m)))
    where
      todo : List Key
      todo = todo_a R sizes repeats (done_cells b.out) plan

      full : done_cells b'.out ≡ done_cells b.out ++ todo
      full =
          subst (Appends R.State (done_cells b.out) todo) first
            (experiment_a-Appends R root sizes repeats plan b)
