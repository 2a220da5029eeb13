-- ===== src/Tests/Plain.antt =====
-- Experiment C on the machine.
use syncfs.Base.{ℕ, ◌+◌, ◌≡◌, refl, none, [], ◌∷◌, map}
use syncfs.Base.Exec.{ok, raised, os_error, finally}
use syncfs.Matrix.Rows.{done_cells, grid, wanted}
use syncfs.Matrix.Experiments.{Bench, idle}
use syncfs.Matrix.Experiments.Adds.{Appends}
use syncfs.Matrix.Plain.{Disk, key_c, flush, experiment_c}
use syncfs.Matrix.Plain.Rows.{experiment_c-Appends}
use syncfs.Tests.Machine.{machine}
use syncfs.Tests.Cells.{workshop}

-- Every flush fails, and the close of its file takes a tick.
abbrev pub disk : Disk machine
disk = record {
  mkdir = λ p s. (ok tt, s);
  copyfile = λ a b s. (ok tt, s + 700);
  open_file = λ p s. (ok 3, s);
  fsync = λ fd s. (raised (os_error "EIO"), s);
  close = λ fd s. (ok tt, s + 1);
}

abbrev bench : Bench ℕ
bench = record { out = none; rig = 0; stage = idle }

experiment_c-Appends_example :
    Appends ℕ
      (done_cells none)
      (map key_c (wanted key_c (done_cells none) (grid (1024 ∷ []) 2)))
      (experiment_c machine workshop disk "/r" (1024 ∷ []) 2 bench)
experiment_c-Appends_example = experiment_c-Appends machine workshop disk "/r" (1024 ∷ []) 2 bench

closed_anyway :
    flush machine workshop disk "/r/plain/copy-1024-0.bin" 5 ≡ (raised (os_error "EIO"), 6)
unfolding flush finally
closed_anyway = refl
