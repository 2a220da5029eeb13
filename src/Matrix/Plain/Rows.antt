-- ===== src/Matrix/Plain/Rows.antt =====
-- The rows that `experiment_c` (tools/measure/bucketfs/run_matrix.py) adds to the results file.
use mathlib.Core.List.{append-nil}
use syncfs.Base.{
  ℕ, ◌≡◌, refl, sym, Bool, true, false, not, List, [], ◌∷◌, ◌++◌, map, String, ◌<>◌, if◌then◌else◌,
  Bool-cases, inl, inr,
}
use mathlib.Core.Path.{subst}
use syncfs.Base.Equality.{contains, string_eq, pair_eq}
use syncfs.Base.Exec.{Exec}
use syncfs.Host.{Host}
use syncfs.Matrix.Rows.{Row, Key, row_key, done_cells, grid, wanted}
use syncfs.Matrix.Workshop.{Workshop}
use syncfs.Matrix.Experiments.Adds.{Adds, Appends, Adds-bind, none_added, saved-Appends}
use syncfs.Matrix.Plain.{
  Disk, key_c, row_c, Ledger, on_host, write_row, plain_cell, plain_name, cell_c, unless_done,
  cells_c, experiment_c,
}

module _ (H : Host) (W : Workshop H) (D : Disk H) where
  on_host-Adds : {A : Type 0} (m : Exec H.State A) → Adds H.State [] (on_host H W D m)
  on_host-Adds m b = none_added H.State b (on_host H W D m b) refl

  write_row-Adds : (row : Row) → Adds H.State (row_key row ∷ []) (write_row H W D row)
  unfolding write_row
  write_row-Adds row b = saved-Appends H.State row b (W.save row b.rig).0 (W.save row b.rig).1

  cell_c-Adds : (root : String) (c : ℕ × ℕ) → Adds H.State (key_c c ∷ []) (cell_c H W D root c)
  unfolding cell_c
  cell_c-Adds root (size, repeat) =
      Adds-bind H.State [] (key_c (size, repeat) ∷ [])
        (on_host H W D (
          plain_cell H W D (root <> ("/staging/" <> plain_name "plain" size repeat))
            (root <> ("/plain/" <> plain_name "copy" size repeat)) size))
        _ (on_host-Adds _) (λ m. write_row-Adds (row_c (size, repeat) m))

  abbrev asked_for : List Key → List (ℕ × ℕ) → List Key
  asked_for done cells = map key_c (wanted key_c done cells)

  -- A cell that is done adds nothing, and is not wanted.
  skip_or_run :
      (root : String) (c : ℕ × ℕ) (there : Bool)
      → Adds H.State (if not there then key_c c ∷ [] else []) (unless_done H W D root there c)
  skip_or_run root c true = λ b. sym (append-nil _)
  skip_or_run root c false = cell_c-Adds root c

  asked_for_cons :
      (done : List Key) (c : ℕ × ℕ) (rest : List (ℕ × ℕ))
      → (if not (contains (key_c c) done) then key_c c ∷ [] else []) ++ asked_for done rest
        ≡ asked_for done (c ∷ rest)
  unfolding wanted
  asked_for_cons done c rest = elim (Bool-cases (contains (key_c c) done)) [
    | inl there ↦ rw there refl
    | inr new ↦ rw new refl
  ]

  cells_c-Adds :
      (root : String) (done : List Key) (cells : List (ℕ × ℕ))
      → Adds H.State (asked_for done cells) (cells_c H W D root done cells)
  unfolding cells_c wanted
  cells_c-Adds root done [] = λ b. sym (append-nil _)
  cells_c-Adds root done (c ∷ rest) =
      subst (λ todo. Adds H.State todo (cells_c H W D root done (c ∷ rest)))
        (asked_for_cons done c rest)
        (Adds-bind H.State (if not (contains (key_c c) done) then key_c c ∷ [] else [])
          (asked_for done rest) (unless_done H W D root (contains (key_c c) done) c) _
          (skip_or_run root c (contains (key_c c) done)) (λ _. cells_c-Adds root done rest))

  -- Experiment C adds to the results file a row for each size and repeat that it does not hold yet, in
  -- that order, and no other row: all of them where it returns, and the first few of them where it
  -- raises.
  pub experiment_c-Appends :
      (root : String) (sizes : List ℕ) (repeats : ℕ) (b : Ledger H W D)
      → Appends H.State
          (done_cells b.out)
          (map key_c (wanted key_c (done_cells b.out) (grid sizes repeats)))
          (experiment_c H W D root sizes repeats b)
  unfolding experiment_c
  experiment_c-Appends root sizes repeats b =
      Adds-bind H.State [] (asked_for (done_cells b.out) (grid sizes repeats))
        (on_host H W D (D.mkdir (root <> "/staging"))) _
        (on_host-Adds (D.mkdir (root <> "/staging")))
        (λ _.
          Adds-bind H.State [] (asked_for (done_cells b.out) (grid sizes repeats))
            (on_host H W D (D.mkdir (root <> "/plain"))) _
            (on_host-Adds (D.mkdir (root <> "/plain")))
            (λ _. cells_c-Adds root (done_cells b.out) (grid sizes repeats)))
        b
