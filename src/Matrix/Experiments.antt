-- ===== src/Matrix/Experiments.antt =====
-- `experiment_a` and `experiment_b` of tools/measure/bucketfs/run_matrix.py, over a rig.
pub mod Stages
pub mod Adds
pub mod Resume
pub mod Again
use syncfs.Base.{
  ℕ, ◌+◌, ◌≡◌, Bool, true, false, Option, none, some, List, [], ◌∷◌, String, ◌<>◌, if◌then◌else◌,
  is_empty,
}
use syncfs.Base.Decimal.{show}
use syncfs.Base.Exec.{Result, ok, raised, Exec, pure, finally, ◌>>=◌, ◌>>◌}
use syncfs.Matrix.Rig.{Rig}
use syncfs.Matrix.Rows.{Measure, Row, Key, key_of, Csv, append, saved, done_cells, grid, wanted}

-- One entry of the plan.
pub record Arm : Type 0 where
  pub system : String
  pub config : String
  pub nodes : ℕ
  pub sync_period : ℕ

-- Which cluster stands, that is, for which a `cluster_up` returned and no `cluster_down` has since, as a
-- monitor of the calls: `misused` once a cell was measured or cleared
-- with no cluster up, or a cluster was brought up over another.
pub data Stage : Type 0 where
  idle : Stage
  running : String → Stage
  misused : Stage

pub record Bench (S : Type 0) : Type 0 where
  pub out : Csv
  pub rig : S
  pub stage : Stage

abbrev pub raising : String → Stage → Stage
raising root idle = running root
raising root (running other) = misused
raising root misused = misused

abbrev pub lowering : Stage → Stage
lowering idle = idle
lowering (running root) = idle
lowering misused = misused

abbrev pub using : Stage → Stage
using idle = misused
using (running root) = running root
using misused = misused

abbrev pub if_ok {ℓ} : {A : Type ℓ} → Result A → Stage → Stage → Stage
if_ok (ok a) s t = s
if_ok (raised e) s t = t

-- `probe-{size}-{repeat}.bin`
abbrev pub name_for : ℕ → ℕ → String
name_for size repeat = "probe-" <> (show size <> ("-" <> (show repeat <> ".bin")))

-- `root / f"{system}-{config}-{nodes}"`
abbrev pub cluster_root : String → Arm → String
cluster_root root a = root <> ("/" <> (a.system <> ("-" <> (a.config <> ("-" <> show a.nodes)))))

-- `root / f"B-{system}-{config}-{nodes}"`
abbrev pub tree_root : String → Arm → String
tree_root root a = root <> ("/B-" <> (a.system <> ("-" <> (a.config <> ("-" <> show a.nodes)))))

abbrev pub small_file : ℕ
small_file = 4096

module _ (R : Rig) where
  abbrev pub B : Type 0
  B = Bench R.State

  -- A call of the rig that has no business with the monitor.
  abbrev pub on_rig : {A : Type 0} → Exec R.State A → Exec B A
  on_rig m b = let (r, s) = m b.rig in (r, record b { rig = s })

  unfoldable pub bring_up : Arm → String → Exec B R.Info
  bring_up a root b =
      let (r, s) = R.cluster_up a.system a.nodes root a.sync_period b.rig in
      (r, record b { rig = s; stage = if_ok r (raising root b.stage) b.stage })

  unfoldable pub bring_down : Arm → String → Exec B (Unit {0})
  bring_down a root b =
      let (r, s) = R.cluster_down a.system a.nodes root b.rig in
      (r, record b { rig = s; stage = if_ok r (lowering b.stage) misused })

  unfoldable pub measure : Exec R.State Measure → Exec B Measure
  measure m b = let (r, s) = m b.rig in (r, record b { rig = s; stage = using b.stage })

  unfoldable pub clear : R.Info → String → Exec B (Unit {0})
  clear info name b =
      let (r, s) = R.clear_cell info name b.rig in (r, record b { rig = s; stage = using b.stage })

  unfoldable pub time : Exec B ℕ
  time b = let (t, s) = R.time b.rig in (ok t, record b { rig = s })

  unfoldable pub append_row : Row → Exec B (Unit {0})
  unfolding append
  append_row row b =
      let (r, s) = R.save row b.rig in (r, record b { out = saved r b.out row; rig = s })

  -- Experiment A.
  module _ (staging : String) (a : Arm) where
    abbrev pub row_a : ℕ × ℕ → ℕ → Measure → Row
    row_a (size, repeat) t0 m = record {
      experiment = "A";
      system = a.system;
      config = a.config;
      nodes = a.nodes;
      size_bytes = size;
      file_count = 1;
      repeat = repeat;
      t0 = t0;
      measure = m;
    }

    unfoldable pub cell_a : R.Info → ℕ × ℕ → Exec B (Unit {0})
    unfolding measure time append_row clear
    cell_a info (size, repeat) = do
      m ← measure (R.propagation_cell info size repeat staging)
      t ← time
      append_row (row_a (size, repeat) t m)
      clear info (name_for size repeat)

    unfoldable pub cells_a : R.Info → List (ℕ × ℕ) → Exec B (Unit {0})
    unfolding cell_a
    cells_a info [] = pure tt
    cells_a info (c ∷ rest) = do cell_a info c; cells_a info rest

  abbrev pub key_a : Arm → ℕ × ℕ → Key
  key_a a (size, repeat) = key_of "A" a.system a.config a.nodes size 1 repeat

  -- One entry of the plan, with what is still wanted of it.
  unfoldable pub arm_a : String → Arm → List (ℕ × ℕ) → Exec B (Unit {0})
  unfolding cells_a bring_up bring_down finally
  arm_a root a [] = pure tt
  arm_a root a (c ∷ cells) = do
    info ← bring_up a (cluster_root root a)
    finally (cells_a (root <> "/staging") a info (c ∷ cells)) (bring_down a (cluster_root root a))

  unfoldable pub arms_a : String → List ℕ → ℕ → List Key → List Arm → Exec B (Unit {0})
  unfolding arm_a
  arms_a root sizes repeats done [] = pure tt
  arms_a root sizes repeats done (a ∷ plan) = do
    arm_a root a (wanted (key_a a) done (grid sizes repeats))
    arms_a root sizes repeats done plan

  unfoldable pub experiment_a : String → List ℕ → ℕ → List Arm → Exec B (Unit {0})
  unfolding arms_a
  experiment_a root sizes repeats plan b =
      (do on_rig (R.mkdir (root <> "/staging")); arms_a root sizes repeats (done_cells b.out) plan)
        b

  -- Experiment B, in which every cell leaves a fresh cluster behind.
  module _ (staging root : String) (a : Arm) where
    abbrev pub row_b : ℕ × ℕ → ℕ → Measure → Row
    row_b (count, repeat) t0 m = record {
      experiment = "B";
      system = a.system;
      config = a.config;
      nodes = a.nodes;
      size_bytes = small_file;
      file_count = count;
      repeat = repeat;
      t0 = t0;
      measure = m;
    }

    unfoldable pub cell_b : R.Info → ℕ × ℕ → Exec B R.Info
    unfolding measure time append_row bring_up bring_down
    cell_b info (count, repeat) = do
      m ← measure (R.tree_cell info count repeat staging)
      t ← time
      append_row (row_b (count, repeat) t m)
      bring_down a root
      bring_up a root

    unfoldable pub cells_b : R.Info → List (ℕ × ℕ) → Exec B (Unit {0})
    unfolding cell_b
    cells_b info [] = pure tt
    cells_b info (c ∷ rest) = do info' ← cell_b info c; cells_b info' rest

  abbrev pub key_b : Arm → ℕ × ℕ → Key
  key_b a (count, repeat) = key_of "B" a.system a.config a.nodes small_file count repeat

  unfoldable pub arm_b : String → Arm → List (ℕ × ℕ) → Exec B (Unit {0})
  unfolding cells_b bring_up bring_down finally
  arm_b root a [] = pure tt
  arm_b root a (c ∷ cells) = do
    info ← bring_up a (tree_root root a)
    finally (cells_b (root <> "/staging") (tree_root root a) a info (c ∷ cells))
        (bring_down a (tree_root root a))

  unfoldable pub arms_b : String → List ℕ → ℕ → List Key → List Arm → Exec B (Unit {0})
  unfolding arm_b
  arms_b root counts repeats done [] = pure tt
  arms_b root counts repeats done (a ∷ plan) = do
    arm_b root a (wanted (key_b a) done (grid counts repeats))
    arms_b root counts repeats done plan

  unfoldable pub experiment_b : String → List ℕ → ℕ → List Arm → Exec B (Unit {0})
  unfolding arms_b
  experiment_b root counts repeats plan b =
      (do on_rig (R.mkdir (root <> "/staging")); arms_b root counts repeats (done_cells b.out) plan)
        b
