-- ===== src/Tests/Matrix.antt =====
-- The experiments on a rig that counts its calls, and the summary of a cell.
use syncfs.Base.{ℕ, ◌+◌, ◌≡◌, ◌↔◌, ◌≤◌, refl, true, none, some, String, List, [], ◌∷◌}
use syncfs.Base.Int.{ℤ, pos, ◌≤ℤ◌, pos_part, neg_part}
use syncfs.Base.Equality.{string_eq}
use syncfs.Base.Dict.{Dict}
use syncfs.Base.Exec.{ok, raised, runtime_error, finally}
use syncfs.Poller.Watch.{Record, fresh}
use syncfs.Matrix.Rig.{Rig, IsTidy}
use syncfs.Matrix.Rows.{Measure, append, done_cells, grid, wanted}
use syncfs.Matrix.Payload.{Writes, make_payload, make_payload_lem}
use syncfs.Matrix.Summary.{summarise, hashes_of}
use syncfs.Matrix.Summary.Times.{summarise_times}
use syncfs.Matrix.Summary.Converged.{EveryoneArrived, Unanimous, converged_iff}
use syncfs.Matrix.Experiments.{
  Arm, Bench, idle, experiment_a, arms_a, arm_a, cells_a, cell_a, bring_up, bring_down, measure,
  time, append_row, clear,
}
use syncfs.Matrix.Experiments.Stages.{experiment_a-idle}
use syncfs.Matrix.Experiments.Resume.{todo_a, experiment_a-Appends}
use syncfs.Matrix.Experiments.Adds.{Appends}
use syncfs.Matrix.Experiments.Again.{experiment_a_again}

abbrev measured : Measure
measured = record {
  ingest_s = some (pos 5);
  propagation_s = some (pos 9);
  fanout_s = some (pos 4);
  converged = true;
  distinct_hashes = 1;
  arrivals = [];
  nofile = none;
  loadavg = 10;
}

abbrev rig : Rig
rig = record {
  State = ℕ;
  Info = String;
  time = λ s. (s, s + 1);
  mkdir = λ p s. (ok tt, s + 1);
  cluster_up = λ system nodes root period s. (ok root, s + 1);
  cluster_down = λ system nodes root s. (ok tt, s + 1);
  propagation_cell = λ info size repeat staging s. (ok measured, s + 1);
  tree_cell = λ info count repeat staging s. (raised (runtime_error "no space"), s + 1);
  save = λ row s. (ok tt, s);
  clear_cell = λ info name s. (ok tt, s + 1);
}

abbrev tidy : IsTidy rig
tidy = record { down_ok = λ system nodes root s. refl }

abbrev plan : List Arm
plan = record { system = "syncfs"; config = "default"; nodes = 10; sync_period = 0 } ∷ []

abbrev bench : Bench ℕ
bench = record { out = none; rig = 0; stage = idle }

experiment_a-idle_example : (experiment_a rig "/r" (4096 ∷ []) 2 plan bench).1.stage ≡ idle
experiment_a-idle_example = experiment_a-idle rig tidy "/r" (4096 ∷ []) 2 plan bench refl

experiment_a-Appends_example :
    Appends rig.State
      (done_cells none)
      (todo_a rig (4096 ∷ []) 2 (done_cells none) plan)
      (experiment_a rig "/r" (4096 ∷ []) 2 plan bench)
experiment_a-Appends_example = experiment_a-Appends rig "/r" (4096 ∷ []) 2 plan bench

abbrev after : Bench ℕ
after = (experiment_a rig "/r" (4096 ∷ []) 2 plan bench).1

first_run : experiment_a rig "/r" (4096 ∷ []) 2 plan bench ≡ (ok tt, after)
unfolding experiment_a arms_a arm_a cells_a cell_a bring_up bring_down measure time append_row clear
    append done_cells grid wanted finally
first_run = refl

experiment_a_again_example :
    experiment_a rig "/r" (4096 ∷ []) 2 plan after
    ≡ (ok tt, record after { rig = (rig.mkdir "/r/staging" after.rig).1 })
experiment_a_again_example =
    experiment_a_again rig "/r" (4096 ∷ []) 2 plan bench after first_run refl

abbrev seen : String → ℤ → Record
seen name t = record (fresh name (some 7)) { sha256 = some "00ff"; elapsed = some t }

abbrev cell : Dict String Record
cell = ("sfs1", seen "sfs1" (pos 12345)) ∷ ("sfs2", seen "sfs2" (pos 98765)) ∷ []

summarise_times_example :
    let s = summarise cell "sfs1" in
    (i : ℤ) × (p : ℤ) × (f : ℤ) × (s.ingest_s ≡ some i)
    × (s.propagation_s ≡ some p)
    × (s.fanout_s ≡ some f)
    × (pos 0 ≤ℤ f)
    × (pos_part i + pos_part f + neg_part p ≤ pos_part p + neg_part i + neg_part f + 1)
    × (pos_part p + neg_part i + neg_part f ≤ pos_part i + pos_part f + neg_part p + 1)
summarise_times_example = summarise_times cell "sfs1" (pos 12345) refl

converged_iff_example :
    ((summarise cell "sfs1").converged ≡ true) ↔ (EveryoneArrived cell × Unanimous (hashes_of cell))
converged_iff_example = converged_iff cell "sfs1"

make_payload_lem_example : Writes 20000000 (make_payload 20000000)
make_payload_lem_example = make_payload_lem 20000000
