-- ===== src/Matrix/Plain.antt =====
-- `experiment_c` of tools/measure/bucketfs/run_matrix.py: the plain files that the two systems' ingest is
-- compared with.
pub mod Rows
use syncfs.Base.{
  ℕ, ◌-◌, Bool, true, false, Option, none, some, List, [], ◌∷◌, String, ◌<>◌, if◌then◌else◌,
}
use syncfs.Base.Int.{ℤ, pos, sub_ℕ}
use syncfs.Base.Decimal.{show}
use syncfs.Base.Equality.{contains, string_eq, pair_eq}
use syncfs.Base.Exec.{Result, ok, raised, os_error, Exec, pure, raise, call, finally, ◌>>=◌, ◌>>◌}
use syncfs.Host.{Host}
use syncfs.Matrix.Rows.{Measure, Row, Key, key_of, append, saved, done_cells, grid}
use syncfs.Matrix.Summary.{round4}
use syncfs.Matrix.Workshop.{Workshop}
use syncfs.Matrix.Cells.{write_payload, wait_for_idle}
use syncfs.Matrix.Experiments.{Bench}

-- The calls that only this experiment makes.
pub record Disk (H : Host) : Type 0 where
  pub mkdir : String → Exec H.State (Unit {0})
  pub copyfile : String → String → Exec H.State (Unit {0})
  pub open_file : String → Exec H.State ℕ
  pub fsync : ℕ → Exec H.State (Unit {0})
  pub close : ℕ → Exec H.State (Unit {0})

abbrev pub plain_name : String → ℕ → ℕ → String
plain_name prefix size repeat = prefix <> ("-" <> (show size <> ("-" <> (show repeat <> ".bin"))))

abbrev pub key_c : ℕ × ℕ → Key
key_c (size, repeat) = key_of "C" "plainfile" "baseline" 0 size 1 repeat

-- What a cell measures.
pub record Plain : Type 0 where
  pub load : ℕ
  pub began : ℕ
  pub elapsed : ℤ

abbrev pub row_c : ℕ × ℕ → Plain → Row
row_c (size, repeat) m = record {
  experiment = "C";
  system = "plainfile";
  config = "baseline";
  nodes = 0;
  size_bytes = size;
  file_count = 1;
  repeat = repeat;
  t0 = m.began;
  measure = record {
    ingest_s = some (round4 m.elapsed);
    propagation_s = some (round4 m.elapsed);
    fanout_s = some (pos 0);
    converged = true;
    distinct_hashes = 1;
    arrivals = [];
    nofile = none;
    loadavg = m.load;
  };
}

module _ (H : Host) (W : Workshop H) (D : Disk H) where
  abbrev pub Ledger : Type 0
  Ledger = Bench H.State

  abbrev pub on_host : {A : Type 0} → Exec H.State A → Exec Ledger A
  on_host m b = let (r, s) = m b.rig in (r, record b { rig = s })

  unfoldable pub write_row : Row → Exec Ledger (Unit {0})
  unfolding append
  write_row row b =
      let (r, s) = W.save row b.rig in (r, record b { out = saved r b.out row; rig = s })

  -- `none` where the rounds of `wait_for_idle` run out, which they do not.
  abbrev pub known : Option ℕ → Exec H.State ℕ
  known none = raise (os_error "out of rounds")
  known (some load) = pure load

  -- `os.open`, `os.fsync`, and the close in any case
  unfoldable pub flush : String → Exec H.State (Unit {0})
  unfolding finally
  flush target = do fd ← D.open_file target; finally (D.fsync fd) (D.close fd)

  unfoldable pub plain_cell : String → String → ℕ → Exec H.State Plain
  unfolding write_payload wait_for_idle flush
  plain_cell payload target size = do
    write_payload H W payload size
    idle ← call (wait_for_idle H W)
    load ← known idle
    t0 ← call H.time
    D.copyfile payload target
    flush target
    t1 ← call H.time
    W.unlink payload
    W.unlink target
    pure (record { load = load; began = t0; elapsed = sub_ℕ t1 t0 })

  unfoldable pub cell_c : String → ℕ × ℕ → Exec Ledger (Unit {0})
  unfolding plain_cell write_row
  cell_c root (size, repeat) = do
    m ← on_host (
        plain_cell (root <> ("/staging/" <> plain_name "plain" size repeat))
          (root <> ("/plain/" <> plain_name "copy" size repeat)) size)
    write_row (row_c (size, repeat) m)

  abbrev pub unless_done : String → Bool → ℕ × ℕ → Exec Ledger (Unit {0})
  unless_done root true c = pure tt
  unless_done root false c = cell_c root c

  -- the two loops, with the test that skips a cell
  unfoldable pub cells_c : String → List Key → List (ℕ × ℕ) → Exec Ledger (Unit {0})
  unfolding cell_c
  cells_c root done [] = pure tt
  cells_c root done (c ∷ rest) = do
    unless_done root (contains (key_c c) done) c
    cells_c root done rest

  unfoldable pub experiment_c : String → List ℕ → ℕ → Exec Ledger (Unit {0})
  unfolding cells_c
  experiment_c root sizes repeats b =
      (do
        on_host (D.mkdir (root <> "/staging"))
        on_host (D.mkdir (root <> "/plain"))
        cells_c root (done_cells b.out) (grid sizes repeats))
        b
