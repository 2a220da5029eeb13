-- ===== src/Matrix/Cells.antt =====
-- One cell of run_matrix.py (tools/measure/bucketfs): `wait_for_idle`, the writer's thread,
-- `propagation_cell`, `tree_cell` and `clear_cell`.
pub mod Idle
pub mod Written
use syncfs.Base.{
  ℕ, zero, suc, ◌+◌, ◌*◌, ◌≡◌, Bool, true, false, not, ◌||◌, Option, none, some, List, [], ◌∷◌, map,
  String, ◌<>◌, if◌then◌else◌, nat_beq, ltb,
}
use syncfs.Base.Decimal.{show}
use syncfs.Base.Equality.{◌==◌, string_eq}
use syncfs.Base.Dict
use syncfs.Base.Dict.{Dict}
use syncfs.Base.Exec.{
  Result, ok, raised, Exn, runtime_error, os_error, Exec, pure, raise, call, finally, ◌>>=◌, ◌>>◌,
}
use syncfs.Host.{Host}
use syncfs.Poller.Watch.{Record, Nodes, Target, watch}
use syncfs.Poller.Absent.{watch_absent}
use syncfs.Matrix.Payload.{make_payload, interval_ms, deadline_for}
use syncfs.Matrix.Rows.{Measure}
use syncfs.Matrix.Summary.{Summary, summarise}
use syncfs.Matrix.Experiments.{name_for, small_file}
use syncfs.Matrix.Bucket.{Bucket, bucket_at, delete}
use syncfs.Tables.Grid.{sorted_set, str_lt}
use syncfs.Matrix.Workshop.{
  Site, Info, is_syncfs, dir_of, dirs_onto, target_paths, target_dirs, first_of, names_of,
  writer_of, Workshop, Body, copy_body, put_body, tree_copy_body, tree_put_body, microseconds,
}

module _ (H : Host) (W : Workshop H) where
  -- `raise error[0]`, if there is one
  abbrev pub raise_first : Option Exn → Exec H.State (Unit {0})
  raise_first none = pure tt
  raise_first (some e) = raise e

  -- the `join` of the four threads
  unfoldable pub join_thread : (H.State → H.State) → W.Thread → Exec H.State (Unit {0})
  join_thread close thread = do
    error ← call (W.join thread)
    call (λ s. (tt, close s))
    raise_first error

  -- The start of a thread, which returns its join, with what is closed then.
  abbrev pub spawned : (H.State → H.State) → Body H → Exec H.State (Exec H.State (Unit {0}))
  spawned close body = do thread ← call (W.start body); pure (join_thread close thread)

  unfoldable pub spawn_copy : String → String → Exec H.State (Exec H.State (Unit {0}))
  unfolding join_thread copy_body
  spawn_copy src dst = spawned (λ s. s) (copy_body H W src dst)

  unfoldable pub spawn_put : Bucket → String → String → ℕ → Exec H.State (Exec H.State (Unit {0}))
  unfolding join_thread put_body
  spawn_put bucket name payload size =
      spawned (W.http.close bucket) (put_body H W bucket name payload size)

  unfoldable pub spawn_tree_copy : String → String → ℕ → Exec H.State (Exec H.State (Unit {0}))
  unfolding join_thread tree_copy_body
  spawn_tree_copy unit target count = spawned (λ s. s) (tree_copy_body H W unit target count)

  unfoldable pub spawn_tree_put :
      Bucket → String → String → ℕ → Exec H.State (Exec H.State (Unit {0}))
  unfolding join_thread tree_put_body
  spawn_tree_put bucket prefix unit count =
      spawned (W.http.close bucket) (tree_put_body H W bucket prefix unit count)

  -- `while loadavg() > threshold and time.time() < end: time.sleep(10)`, in hundredths of a load,
  -- and `return loadavg()`. `none` where the fuel runs out.
  abbrev pub again : (H.State → Option ℕ × H.State) → ℕ → ℕ × H.State → Option ℕ × H.State
  again next end (t, s) =
      if ltb t end
      then next (H.sleep (10 * microseconds) s)
      else (let (load, s') = W.loadavg s in (some load, s'))

  abbrev pub unless_idle : (H.State → Option ℕ × H.State) → ℕ → ℕ × H.State → Option ℕ × H.State
  unless_idle next end (load, s) =
      if ltb 150 load
      then again next end (H.time s)
      else (let (load', s') = W.loadavg s in (some load', s'))

  unfoldable pub idle_loop : ℕ → ℕ → H.State → Option ℕ × H.State
  idle_loop zero end s = (none, s)
  idle_loop (suc fuel) end s = unless_idle (idle_loop fuel end) end (W.loadavg s)

  -- Rounds of ten seconds fill two minutes in twelve.
  unfoldable pub wait_for_idle : H.State → Option ℕ × H.State
  unfolding idle_loop
  wait_for_idle s = let (t, s') = H.time s in idle_loop 13 (t + 120 * microseconds) s'

  abbrev pub write_chunks : String → Option (List ℕ) → Exec H.State (Unit {0})
  write_chunks path none = pure tt
  write_chunks path (some sizes) = W.write_random path sizes

  unfoldable pub write_payload : String → ℕ → Exec H.State (Unit {0})
  unfolding make_payload
  write_payload path size = write_chunks path (make_payload size)

  abbrev pub key_error : {A : Type 0} → String → Option A → Exec H.State A
  key_error key none = raise (os_error ("KeyError: " <> key))
  key_error key (some a) = pure a

  abbrev pub row_of : Info → String → ℕ → Dict String Record → Measure
  row_of info writer load records =
      let s = summarise records writer in
      record {
        ingest_s = s.ingest_s;
        propagation_s = s.propagation_s;
        fanout_s = s.fanout_s;
        converged = s.converged;
        distinct_hashes = s.distinct_hashes;
        arrivals = s.arrivals;
        nofile = info.nofile;
        loadavg = load;
      }

  -- What follows the start of the thread: watch, join it, remove the payload, and sum up.
  abbrev pub measured : Info → String → Option ℕ → Option (Dict String Record) → Option Measure
  measured info writer none records = none
  measured info writer (some load) none = none
  measured info writer (some load) (some records) = some (row_of info writer load records)

  -- `Bucket(url, write_passwd)`, with the ValueError of a URL that it cannot read
  abbrev pub new_bucket : Option Bucket → Exec H.State Bucket
  new_bucket none = raise (os_error "ValueError")
  new_bucket (some bucket) = pure bucket

  -- `started = …`, by the system
  unfoldable pub start_write :
      Info → String → String → String → ℕ → Exec H.State (Exec H.State (Unit {0}))
  unfolding target_paths spawn_copy spawn_put bucket_at
  start_write info writer name payload size = elim (is_syncfs info) [
    | true ↦ key_error writer (Dict.get writer (target_paths info name)) >>= spawn_copy payload
    | false ↦ key_error writer (Dict.get writer info.node) >>= λ site.
        new_bucket (bucket_at site.url info.write_passwd) >>= λ bucket.
        spawn_put bucket name payload size
  ]

  unfoldable pub start_tree :
      Info → String → String → String → ℕ → Exec H.State (Exec H.State (Unit {0}))
  unfolding spawn_tree_copy spawn_tree_put bucket_at
  start_tree info writer prefix unit count = elim (is_syncfs info) [
    | true ↦
        key_error writer (Dict.get writer (dirs_onto info ("/" <> prefix) info.node)) >>= λ dst.
        spawn_tree_copy unit dst count
    | false ↦ key_error writer (Dict.get writer info.node) >>= λ site.
        new_bucket (bucket_at site.url info.write_passwd) >>= λ bucket.
        spawn_tree_put bucket prefix unit count
  ]

  module _ (dumps : Record → String) (fuel : ℕ) where
    unfoldable pub watched :
        Info
        → String
        → Option ℕ
        → Target
        → Nodes
        → ℕ
        → ℕ
        → ℕ
        → String
        → Exec H.State (Unit {0})
        → Exec H.State (Option Measure)
    unfolding watch summarise
    watched info writer load target nodes interval deadline t0 payload join = do
      records ← watch H target dumps fuel nodes interval deadline t0 "/dev/null"
      join
      W.unlink payload
      pure (measured info writer load records)

    unfoldable pub propagation_cell : Info → ℕ → ℕ → String → Exec H.State (Option Measure)
    unfolding write_payload target_paths writer_of wait_for_idle start_write watched interval_ms
        deadline_for
    propagation_cell info size repeat staging =
        let name = name_for size repeat in
        let payload = staging <> ("/" <> name) in
        (do
          write_payload payload size
          writer ← key_error "0" (writer_of info)
          load ← call wait_for_idle
          t0 ← call H.time
          join ← start_write info writer name payload size
          watched info writer load (record { tree = false; size = size; count = 1 })
              (target_paths info name) (interval_ms size * 1000)
              (deadline_for size info.nodes * microseconds) t0 payload join)

    unfoldable pub tree_cell : Info → ℕ → ℕ → String → Exec H.State (Option Measure)
    unfolding write_payload writer_of wait_for_idle start_tree watched
    tree_cell info count repeat staging =
        let prefix = "many-" <> (show count <> ("-" <> show repeat)) in
        let payload = staging <> ("/" <> (prefix <> ".unit")) in
        (do
          write_payload payload small_file
          writer ← key_error "0" (writer_of info)
          load ← call wait_for_idle
          t0 ← call H.time
          join ← start_tree info writer prefix payload count
          watched info writer load
              (record { tree = true; size = small_file * count; count = count })
              (dirs_onto info ("/" <> prefix) info.node) 500000 (900 * microseconds) t0 payload
              join)

    -- the removal, on the writer alone
    unfoldable pub remove_at : Info → String → Site → Exec H.State (Unit {0})
    unfolding bucket_at delete finally
    remove_at info name site = elim (is_syncfs info) [
      | true ↦ W.unlink (site.data_dir <> ("/" <> name))
      | false ↦ new_bucket (bucket_at site.url info.write_passwd) >>= λ bucket.
          finally (delete H W.http bucket name >>= λ status. pure tt)
            (call (λ s. (tt, W.http.close bucket s)))
    ]

    -- Whether the file is gone from every node, of which the source prints a warning where it is not.
    unfoldable pub clear_cell : Info → String → Exec H.State (Option Bool)
    unfolding writer_of remove_at watch_absent target_paths
    clear_cell info name = do
      writer ← key_error "0" (writer_of info)
      site ← key_error writer (Dict.get writer info.node)
      remove_at info name site
      watch_absent H fuel (target_paths info name) 200000 (180 * microseconds)
