-- ===== src/Matrix/Main/Ends.antt =====
-- However `main` of tools/measure/bucketfs/run_matrix.py ends, no cluster is left that was brought up.
use syncfs.Base.{
  ℕ, ◌≡◌, refl, ◌∙◌, Bool, true, false, Option, none, some, List, [], ◌∷◌, String, ◌<>◌,
}
use syncfs.Base.Equality.{contains, string_eq, pair_eq}
use syncfs.Base.Exec.{Result, ok, raised, Exec, continue}
use syncfs.Host.{Host}
use syncfs.Podman.{Podman}
use syncfs.Exasol.{Files}
use syncfs.Poller.Watch.{Record}
use syncfs.Matrix.Rows.{Key, done_cells, grid}
use syncfs.Matrix.Workshop.{Workshop}
use syncfs.Matrix.Experiments.{Bench, Stage, idle}
use syncfs.Matrix.Drive.{Purge}
use syncfs.Matrix.Drive.Down.{drive-idle}
use syncfs.Matrix.Plain.{
  Disk, on_host, write_row, plain_cell, plain_name, cell_c, unless_done, key_c, cells_c,
  experiment_c,
}
use syncfs.Matrix.Main.{
  Arguments, Experiment, propagation, small_files, ingest, plan_of, sizes_of, numbers_of,
  with_numbers, dispatch, main_matrix,
}

module _ (H : Host) (W : Workshop H) (D : Disk H) where
  -- The call leaves the monitor as it is.
  abbrev Aside : {A : Type 0} → Exec (Bench H.State) A → Type 0
  Aside m = (b : Bench H.State) → (m b).1.stage ≡ b.stage

  continue-Aside :
      {A C : Type 0} (g : Stage) (r : Result A × Bench H.State) (f : A → Exec (Bench H.State) C)
      → r.1.stage ≡ g
      → ((a : A) → Aside (f a))
      → (continue r.0 f r.1).1.stage ≡ g
  continue-Aside g (ok a, b) f h k = k a b ∙ h
  continue-Aside g (raised e, b) f h k = h

  cell_c-Aside : (root : String) (c : ℕ × ℕ) → Aside (cell_c H W D root c)
  unfolding cell_c write_row
  cell_c-Aside root (size, repeat) b =
      continue-Aside b.stage
        (on_host H W D
          (plain_cell H W D (root <> ("/staging/" <> plain_name "plain" size repeat))
            (root <> ("/plain/" <> plain_name "copy" size repeat)) size)
          b)
        _ refl (λ m c. refl)

  unless_done-Aside :
      (root : String) (there : Bool) (c : ℕ × ℕ) → Aside (unless_done H W D root there c)
  unless_done-Aside root true c b = refl
  unless_done-Aside root false c b = cell_c-Aside root c b

  cells_c-Aside :
      (root : String) (done : List Key) (cells : List (ℕ × ℕ))
      → Aside (cells_c H W D root done cells)
  unfolding cells_c
  cells_c-Aside root done [] b = refl
  cells_c-Aside root done (c ∷ rest) b =
      continue-Aside b.stage (unless_done H W D root (contains (key_c c) done) c b) _
        (unless_done-Aside root (contains (key_c c) done) c b) (λ _. cells_c-Aside root done rest)

  experiment_c-Aside :
      (root : String) (sizes : List ℕ) (repeats : ℕ) → Aside (experiment_c H W D root sizes repeats)
  unfolding experiment_c
  experiment_c-Aside root sizes repeats b =
      continue-Aside b.stage (on_host H W D (D.mkdir (root <> "/staging")) b) _ refl (λ _ b₁.
        continue-Aside b₁.stage (on_host H W D (D.mkdir (root <> "/plain")) b₁) _ refl
          (λ _. cells_c-Aside root (done_cells b.out) (grid sizes repeats)))

module _ (H : Host) (P : Podman H) (F : Files H) (G : Purge H) (W : Workshop H) (D : Disk H)
    (dumps : Record → String) (fuel : ℕ) where
  -- From an idle bench the call comes to an idle one.
  abbrev Rests : Exec (Bench H.State) (Unit {0}) → Type 0
  Rests m = (b : Bench H.State) → b.stage ≡ idle → (m b).1.stage ≡ idle

  with_numbers-Rests :
      (ns : Option (List ℕ)) (f : List ℕ → Exec (Bench H.State) (Unit {0}))
      → ((l : List ℕ) → Rests (f l))
      → Rests (with_numbers H P F G W D dumps fuel ns f)
  with_numbers-Rests none f h b e = e
  with_numbers-Rests (some l) f h b e = h l b e

  dispatch-Rests :
      (x : Experiment) (a : Arguments) (sizes : List ℕ)
      → Rests (dispatch H P F G W D dumps fuel x a sizes)
  unfolding dispatch
  dispatch-Rests propagation a sizes b e =
      (drive-idle H P F G W dumps fuel a.root sizes [] a.repeats (plan_of a.plan) b e).0
  dispatch-Rests small_files a sizes b e =
      with_numbers-Rests (numbers_of a.counts) _
        (λ counts b e.
          (drive-idle H P F G W dumps fuel a.root [] counts a.repeats (plan_of a.plan) b e).1)
        b e
  dispatch-Rests ingest a sizes b e = experiment_c-Aside H W D a.root sizes a.repeats b ∙ e

  after_mkdir :
      (x : Experiment) (a : Arguments) (sizes : List ℕ) (r : Result (Unit {0}) × Bench H.State)
      → r.1.stage ≡ idle
      → (continue r.0 (λ u. dispatch H P F G W D dumps fuel x a sizes) r.1).1.stage ≡ idle
  after_mkdir x a sizes (ok u, b) e = dispatch-Rests x a sizes b e
  after_mkdir x a sizes (raised err, b) e = e

  -- From an idle bench `main` comes to an idle one, whichever experiment it is asked for, and whether it
  -- returns or raises: the two cluster scripts and the cells are what the experiments ask of a rig, so
  -- that every cluster whose bringing up returned is taken down, and no cell was measured or cleared
  -- without one.
  pub main_matrix-Rests :
      (a : Arguments) (b : Bench H.State)
      → b.stage ≡ idle
      → (main_matrix H P F G W D dumps fuel a b).1.stage ≡ idle
  unfolding main_matrix
  main_matrix-Rests a b e =
      with_numbers-Rests (sizes_of a.sizes) _
        (λ sizes b e. after_mkdir a.experiment a sizes (on_host H W D (D.mkdir a.root) b) e) b e
