-- ===== src/Tail.antt =====
-- `sweep` of tools/measure/bucketfs/measure_tail.py: one write after the other into one mesh.
pub mod Sweep
use syncfs.Base.{
  ℕ, zero, suc, ◌+◌, ◌≡◌, Bool, true, false, ◌&&◌, Option, none, some, List, [], ◌∷◌, map, String,
  ◌<>◌, if◌then◌else◌, ltb,
}
use syncfs.Base.Int.{ℤ}
use syncfs.Base.Decimal.{show}
use syncfs.Base.Equality.{string_eq}
use syncfs.Base.Dict.{Dict}
use syncfs.Base.Exec.{Result, ok, raised, Exec, pure, call, finally, ◌>>=◌, ◌>>◌}
use syncfs.Host.{Host}
use syncfs.Poller.Watch.{Record, Nodes, Target, watch}
use syncfs.Poller.Absent.{watch_absent}
use syncfs.Podman.{Podman, Root, Mesh, Node}
use syncfs.Cluster.{up, down}
use syncfs.Matrix.Summary.{last_arrival}
use syncfs.Tables.Figures.{padded}

-- The calls on files, and the removal of the root by `podman unshare`.
pub record Disk (H : Host) : Type 0 where
  pub write_random : String → ℕ → Exec H.State (Unit {0})
  pub copyfile : String → String → Exec H.State (Unit {0})
  pub unlink : String → Exec H.State (Unit {0})
  pub purge : String → H.State → H.State

-- `{n: d / name for n, d in dirs.items()}`
abbrev pub places : String → List (String × Node) → Nodes
places name [] = []
places name ((n, node) ∷ rest) = (n, node.data_dir <> ("/" <> name)) ∷ places name rest

-- `dirs[writer] / name`, which is there since the writer is one of the nodes
abbrev pub place_of : String → Nodes → String
place_of writer [] = ""
place_of writer ((n, path) ∷ rest) =
    let later = place_of writer rest in if string_eq.eqb n writer then path else later

-- `{n: r["elapsed"] …}` of the nodes that arrived
abbrev pub elapsed_of : Dict String Record → Dict String (Option ℤ)
elapsed_of [] = []
elapsed_of ((name, r) ∷ rest) =
    let others = elapsed_of rest in
    elim r.arrived_at [ none ↦ others | some t ↦ (name, r.elapsed) ∷ others ]

-- `f"w{i:03}.bin"`
abbrev pub write_name : ℕ → String
unfolding show
write_name i = "w" <> ((if ltb i 1000 then padded 3 i else show i) <> ".bin")

abbrev pub unit_size : ℕ
unit_size = 1024

module _ (H : Host) (P : Podman H) (D : Disk H) (dumps : Record → String) (fuel : ℕ)
    (root : Root) where
  abbrev pub payload : String
  payload = root.path <> "/unit.bin"

  -- The file of the last write is removed on the writer, and awaited everywhere else.
  unfoldable pub forget : Mesh → Option String → Exec H.State (Option Bool)
  unfolding watch_absent
  forget mesh none = pure (some true)
  forget mesh (some previous) = do
    D.unlink (place_of mesh.writer (places previous mesh.node))
    watch_absent H fuel (places previous mesh.node) 200000 120000000

  abbrev pub target : Target
  target = record { tree = false; size = unit_size; count = 1 }

  -- one write, and the records of its arrivals
  unfoldable pub write_one : Mesh → String → Exec H.State (Option (Dict String Record))
  unfolding watch
  write_one mesh name = do
    t0 ← call H.time
    D.copyfile payload (place_of mesh.writer (places name mesh.node))
    watch H target dumps fuel (places name mesh.node) 50000 120000000 t0 "/dev/null"

  abbrev pub Values : Type 0
  Values = List (Option ℤ)

  abbrev pub and_then :
      {A : Type 0} → Option A → (A → Exec H.State (Option Values)) → Exec H.State (Option Values)
  and_then none f = pure none
  and_then (some a) f = f a

  abbrev pub prepend : Option ℤ → Option Values → Option Values
  prepend v none = none
  prepend v (some vs) = some (v ∷ vs)

  -- `for i in range(writes):`, from the write `i` on
  unfoldable pub write_each : Mesh → Bool → ℕ → ℕ → Option String → Exec H.State (Option Values)
  unfolding forget write_one last_arrival
  write_each mesh deletes zero i previous = pure (some [])
  write_each mesh deletes (suc n) i previous =
      let name = write_name i in
      (do
        gone ← forget mesh (if deletes then previous else none)
        and_then gone λ g. (do
          records ← write_one mesh name
          and_then records λ rs. (do
            values ← write_each mesh deletes n (i + 1) (some name)
            pure (prepend (last_arrival (elapsed_of rs)) values))))

  abbrev pub take_down : ℕ → Exec H.State (Unit {0})
  unfolding down
  take_down nodes = down H P root nodes >> call (λ s. (tt, D.purge root.path s))

  abbrev pub on_mesh : ℕ → ℕ → Bool → Option Mesh → Exec H.State (Option Values)
  unfolding write_each finally take_down
  on_mesh nodes writes deletes none = pure none
  on_mesh nodes writes deletes (some mesh) = do
    D.write_random payload unit_size
    finally (write_each mesh deletes writes 0 none) (take_down nodes)

  unfoldable pub sweep : ℕ → ℕ → Bool → Exec H.State (Option Values)
  unfolding up on_mesh
  sweep nodes writes deletes = do
    mesh ← up H P root fuel none nodes 600000000
    on_mesh nodes writes deletes mesh
