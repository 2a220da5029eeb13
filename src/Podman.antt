-- ===== src/Podman.antt =====
-- The names, files and arguments of tools/measure/bucketfs/syncfs_cluster.py, and the calls of podman
-- that it makes.
use syncfs.Base.{
  ℕ, ◌+◌, Bool, true, false, not, Option, none, some, List, [], ◌∷◌, ◌++◌, map, String, ◌<>◌,
  if◌then◌else◌, nat_beq, keep,
}
use text.Mathlib.Text
use syncfs.Base.Decimal.{show}
use syncfs.Base.Equality.{string_eq}
use syncfs.Base.Exec.{Exec}
use syncfs.Host.{Host}
use syncfs.Matrix.Rows.{range}

-- The calls of podman and of the file system. `run` is checked, and the others are not.
pub record Podman (H : Host) : Type 0 where
  pub run : List String → Exec H.State (Unit {0})
  pub network_exists : String → H.State → Bool × H.State
  -- `podman rm -f`
  pub remove : String → H.State → H.State
  -- `podman inspect`, of the state and of the process
  pub status : String → H.State → String × H.State
  pub pid : String → H.State → String × H.State
  -- `stdout + stderr` of `podman logs`, whole and of the last 20 lines
  pub logs : String → H.State → String × H.State
  pub tail : String → H.State → String × H.State
  pub mkdir : String → Exec H.State (Unit {0})
  pub write_text : String → String → Exec H.State (Unit {0})
  -- the lines of `/proc/{pid}/limits` with their `split()`, or none for an `OSError`
  pub limits : String → H.State → Option (List (String × List String)) × H.State
  -- `int(text)`, or none for a `ValueError`
  pub int : String → Option ℕ
  -- the text of a number of microseconds as seconds
  pub seconds : ℕ → String
  pub uid : String

-- A directory, with the last part of its path.
pub record Root : Type 0 where
  pub path : String
  pub name : String

abbrev pub network : String
network = "syncfsnet"

-- `SUBSCRIBE_GRACE`, in microseconds
abbrev pub subscribe_grace : ℕ
subscribe_grace = 5000000

unfoldable pub node_ids : ℕ → List ℕ
node_ids count = map (λ i. 1 + i) (range count)

unfoldable pub node_name : ℕ → String
node_name i = "sfs" <> show i

unfoldable pub container : Root → ℕ → String
unfolding node_name
container root i = "syncfs-" <> (root.name <> ("-" <> node_name i))

abbrev pub node_root : Root → ℕ → String
node_root root i = root.path <> ("/" <> node_name i)

abbrev pub data_dir : Root → ℕ → String
data_dir root i = node_root root i <> "/data"

-- The nodes whose address the peers file of a node names.
unfoldable pub peers_of : ℕ → List ℕ → List ℕ
peers_of i ids = keep (λ j. not (nat_beq j i)) ids

abbrev pub peer_line : ℕ → String
peer_line j = "tcp://" <> (node_name j <> ":5555\n")

abbrev pub joined : List String → String
joined [] = ""
joined (s ∷ ss) = s <> joined ss

unfoldable pub peers_text : ℕ → List ℕ → String
unfolding peers_of node_name
peers_text i ids = joined (map peer_line (peers_of i ids))

-- The debug binary's source, where it is run.
abbrev pub image_args : String → Option String → List String
image_args uid none = "localhost/syncfs" ∷ []
image_args uid (some source) =
    "-v"
    ∷ (source <> ":/syncfs:ro,Z")
    ∷ "--user"
    ∷ uid
    ∷ "--workdir"
    ∷ "/data"
    ∷ "--entrypoint"
    ∷ "/syncfs/.build/unixlike-clang-debug/src/syncfs"
    ∷ "localhost/syncfs-env"
    ∷ []

unfoldable pub run_args : Root → String → ℕ → Option String → List String
unfolding container node_name
run_args root uid i debug =
    ("podman"
      ∷ "run"
      ∷ "-d"
      ∷ "--name"
      ∷ container root i
      ∷ "--hostname"
      ∷ node_name i
      ∷ "--network"
      ∷ (network <> (":alias=" <> node_name i))
      ∷ "--ulimit"
      ∷ "nofile=1048576:1048576"
      ∷ "--userns"
      ∷ ("keep-id:uid=" <> uid)
      ∷ "-v"
      ∷ (data_dir root i <> ":/data:rw,Z")
      ∷ "-v"
      ∷ (node_root root i <> "/peers:/peers:ro,Z")
      ∷ [])
    ++ image_args uid debug
    ++ ("/peers" ∷ (node_name i <> ":5555") ∷ [])

-- `needle in text`
abbrev pub within : String → String → Bool
within needle text = elim (Text.find? text needle) [ none ↦ false | some i ↦ true ]

abbrev pub started : String → Bool
started text = within "Started libtorrent session" text

abbrev pub list_text : List ℕ → String
list_text [] = ""
list_text (i ∷ []) = show i
list_text (i ∷ j ∷ is) = show i <> (", " <> list_text (j ∷ is))

-- `line.split()[3]`
abbrev pub fourth : List String → Option String
fourth (a ∷ b ∷ c ∷ d ∷ rest) = some d
fourth (a ∷ b ∷ c ∷ []) = none
fourth (a ∷ b ∷ []) = none
fourth (a ∷ []) = none
fourth [] = none

abbrev pub then_int : (String → Option ℕ) → Option String → Option ℕ
then_int int none = none
then_int int (some word) = int word

-- the first line that tells of open files
unfoldable pub nofile_of : (String → Option ℕ) → List (String × List String) → Option ℕ
nofile_of int [] = none
nofile_of int ((line, words) ∷ rest) =
    let later = nofile_of int rest in
    if Text.starts_with line "Max open files" then then_int int (fourth words) else later

abbrev pub nofile_in : (String → Option ℕ) → Option (List (String × List String)) → Option ℕ
unfolding nofile_of
nofile_in int none = none
nofile_in int (some lines) = nofile_of int lines

-- What `up` prints of a node, and of the mesh.
pub record Node : Type 0 where
  pub container_name : String
  pub data_dir : String

pub record Mesh : Type 0 where
  pub nodes : ℕ
  pub nofile : Option ℕ
  pub node : List (String × Node)
  pub writer : String

-- `for node_id in node_ids(count): podman rm -f`, whatever it says
abbrev pub remove_all : {H : Host} → Podman H → (ℕ → String) → List ℕ → H.State → H.State
remove_all P name [] s = s
remove_all P name (i ∷ is) s = remove_all P name is (P.remove (name i) s)
