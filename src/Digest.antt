-- ===== src/Digest.antt =====
-- `addressed` and `measure` of tools/measure/measure_digest.py: the digest that a node addresses to a
-- stand-in for a peer. The clock of the machine is `time.monotonic()` here.
pub mod Reaped
pub mod Awaited
use Prim.Native.Char.{nul}
use syncfs.Base.{
  ℕ, zero, suc, ◌+◌, ◌*◌, ◌%◌, ◌^◌, Bool, true, false, Option, none, some, List, [], ◌∷◌, map,
  String, ◌<>◌, if◌then◌else◌, ltb, sum,
}
use syncfs.Base.Decimal.{show}
use syncfs.Base.Exec.{Result, ok, raised, os_error, Exec, pure, raise, call, finally, ◌>>=◌, ◌>>◌}
use syncfs.Host.{Host}
use syncfs.Matrix.Rows.{range}
use syncfs.Peak.Run.{zero_padded}

-- The sockets, the node's process and the files of a measurement.
pub record Wire (H : Host) : Type 0 where
  pub mkdtemp : Exec H.State String
  pub cleanup : String → Exec H.State (Unit {0})
  pub mkdir : String → Exec H.State (Unit {0})
  pub write_text : String → String → Exec H.State (Unit {0})
  -- the subscriber, of a topic and an endpoint, and the publisher, bound to an endpoint
  pub subscribe : String → String → Exec H.State (Unit {0})
  pub publish : String → Exec H.State (Unit {0})
  pub send : List String → Exec H.State (Unit {0})
  -- whether there is a message within so many microseconds, and the lengths of its parts
  pub poll : ℕ → H.State → Bool × H.State
  pub recv : Exec H.State (List ℕ)
  pub close : H.State → H.State
  -- `Popen(["syncfs", peers, NODE_ADDR], cwd=tree)`
  pub popen : String → String → String → Exec H.State ℕ
  pub terminate : ℕ → H.State → H.State
  -- `wait(timeout=20)`, and whether the timeout expired
  pub wait : ℕ → H.State → Bool × H.State
  pub kill : ℕ → H.State → H.State

abbrev pub node_addr : String
node_addr = "localhost:6100"

abbrev pub probe_addr : String
probe_addr = "localhost:6101"

abbrev pub probe_endpoint : String
probe_endpoint = "tcp://localhost:6101"

-- `b"\0"`
abbrev pub nul_text : String
nul_text = String.◌∷◌ nul ""

abbrev pub zeros : ℕ → String
zeros zero = ""
zeros (suc n) = String.◌∷◌ nul (zeros n)

unfoldable pub addressed : String → String → String
addressed verb endpoint = verb <> (nul_text <> (endpoint <> nul_text))

-- `f"{n % 3}/f{n:04}" if depth_one else f"f{n:04}"`, and the directory that it is in
abbrev pub name_of : Bool → ℕ → String
name_of true n = show (n % 3) <> ("/f" <> zero_padded 4 n)
name_of false n = "f" <> zero_padded 4 n

abbrev pub parent_of : Bool → String → ℕ → String
parent_of true tree n = tree <> ("/" <> show (n % 3))
parent_of false tree n = tree

abbrev pub text_length : String → ℕ
text_length String.[] = 0
text_length (String.◌∷◌ c s) = suc (text_length s)

pub record Report : Type 0 where
  pub files : ℕ
  pub depth_one : Bool
  pub parts : List ℕ
  pub total : ℕ
  pub held_bytes : ℕ
  pub path_chars : ℕ

module _ (H : Host) (W : Wire H) where
  unfoldable pub write_tree : Bool → String → List ℕ → Exec H.State (Unit {0})
  write_tree depth_one tree [] = pure tt
  write_tree depth_one tree (n ∷ ns) = do
    W.mkdir (parent_of depth_one tree n)
    W.write_text (tree <> ("/" <> name_of depth_one n))
        "xxxxxxxxxxxxxxxxxxxxxxxxxxxxxxxxxxxxxxxxxxxxxxxxxxxxxxxxxxxxxxxx"
    write_tree depth_one tree ns

  -- a message, or another round
  abbrev pub answer :
      Exec H.State (Option (Option (List ℕ))) → Bool → Exec H.State (Option (Option (List ℕ)))
  answer next true = do parts ← W.recv; pure (some (some parts))
  answer next false = next

  abbrev pub ask : Exec H.State (Option (Option (List ℕ))) → Exec H.State (Option (Option (List ℕ)))
  ask next = do
    W.send ("state" ∷ zeros 32 ∷ probe_endpoint ∷ [])
    got ← call (W.poll 1000000)
    answer next got

  abbrev pub in_time :
      Exec H.State (Option (Option (List ℕ))) → ℕ → ℕ → Exec H.State (Option (Option (List ℕ)))
  in_time next end t = if ltb t end then ask next else pure (some none)

  -- The parts of the digest, or none behind the deadline; `none` where the fuel runs out.
  unfoldable pub await : ℕ → ℕ → Exec H.State (Option (Option (List ℕ)))
  await zero end = pure none
  await (suc fuel) end = do t ← call H.time; in_time (await fuel end) end t

  -- `parts[1]` is an IndexError where there is none.
  abbrev pub report_of : ℕ → Bool → List ℕ → Exec H.State (Option Report)
  report_of files depth_one [] = raise (os_error "IndexError")
  report_of files depth_one (a ∷ []) = raise (os_error "IndexError")
  report_of files depth_one (a ∷ b ∷ rest) = pure (
      some (record {
        files = files;
        depth_one = depth_one;
        parts = a ∷ b ∷ rest;
        total = sum (a ∷ b ∷ rest);
        held_bytes = b;
        path_chars = sum (map (λ n. text_length (name_of depth_one n) + 2) (range files));
      }))

  abbrev pub reported : ℕ → Bool → Option (Option (List ℕ)) → Exec H.State (Option (Option Report))
  reported files depth_one none = pure none
  reported files depth_one (some none) = pure (some none)
  reported files depth_one (some (some parts)) = do
    r ← report_of files depth_one parts
    pure (some r)

  -- inside of the `try`
  unfoldable pub converse : ℕ → ℕ → ℕ → Bool → Exec H.State (Option (Option Report))
  unfolding await
  converse fuel budget files depth_one = do
    call (λ s. (tt, H.sleep 3000000 s))
    t ← call H.time
    parts ← await fuel (t + budget)
    reported files depth_one parts

  abbrev pub kill_late : ℕ → Bool × H.State → H.State
  kill_late node (true, s) = W.kill node s
  kill_late node (false, s) = s

  -- the `finally`
  unfoldable pub see_off : ℕ → Exec H.State (Unit {0})
  see_off node s = (ok tt, W.close (kill_late node (W.wait node (W.terminate node s))))

  unfoldable pub attend : ℕ → ℕ → ℕ → Bool → ℕ → Exec H.State (Option (Option Report))
  unfolding converse see_off finally
  attend fuel budget files depth_one node =
      finally (converse fuel budget files depth_one) (see_off node)

  -- inside of the two directories
  unfoldable pub measure_in :
      ℕ → ℕ → ℕ → Bool → String → String → Exec H.State (Option (Option Report))
  unfolding write_tree attend addressed
  measure_in fuel budget files depth_one scratch tree = do
    W.write_text (scratch <> "/peers") probe_endpoint
    write_tree depth_one tree (range files)
    W.subscribe (addressed "digest" probe_endpoint) ("tcp://" <> node_addr)
    W.publish ("tcp://" <> probe_addr)
    node ← W.popen (scratch <> "/peers") node_addr tree
    attend fuel budget files depth_one node

  unfoldable pub with_tree : ℕ → ℕ → ℕ → Bool → String → Exec H.State (Option (Option Report))
  unfolding measure_in finally
  with_tree fuel budget files depth_one scratch = do
    tree ← W.mkdtemp
    finally (measure_in fuel budget files depth_one scratch tree) (W.cleanup tree)

  unfoldable pub measure : ℕ → ℕ → ℕ → Bool → Exec H.State (Option (Option Report))
  unfolding with_tree finally
  measure fuel budget files depth_one = do
    scratch ← W.mkdtemp
    finally (with_tree fuel budget files depth_one scratch) (W.cleanup scratch)
