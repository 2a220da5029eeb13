-- ===== src/Exasol.antt =====
-- tools/measure/bucketfs/exasol_cluster.py: bringing a BucketFS cluster up and down.
pub mod Up
use syncfs.Base.{ℕ, Bool, true, false, ◌||◌, Option, none, some, List, [], ◌∷◌, map, String, ◌<>◌}
use syncfs.Base.Decimal.{show}
use syncfs.Base.Equality.{◌==◌, string_eq}
use syncfs.Base.Exec.{Result, ok, raised, Exec, pure, call, ◌>>=◌, ◌>>◌}
use syncfs.Host.{Host}
use syncfs.Podman.{Podman, Root, remove_all}
use syncfs.Readiness.{wait_pending, not_ready}
use syncfs.ExaNet.{
  exanet, exa_ids, exa_container, exa_root, template_of, exaconf_of, init_args, modify_args,
  exa_run_args, url_of, bucket_dir,
}
use syncfs.ExaConf.{Passwords, read_passwords}

-- The calls that this script makes besides those of podman.
pub record Files (H : Host) : Type 0 where
  pub exists : String → H.State → Bool × H.State
  pub rmtree : String → Exec H.State (Unit {0})
  pub copy : String → String → Exec H.State (Unit {0})
  pub read_text : String → Exec H.State String
  -- the stripped output of `curl -s -o /dev/null -w %{http_code} --max-time 3`
  pub http_code : String → H.State → String × H.State
  pub b64decode : String → Result String

-- What `up` reports of a node, and of the cluster.
pub record ExaNode : Type 0 where
  pub container : String
  pub url : String
  pub bucket_dir : String
  pub own_dir : String

pub record Exa : Type 0 where
  pub nodes : ℕ
  pub sync_period_ms : ℕ
  pub passwords : Passwords
  pub node : List (String × ExaNode)

-- `… in {"200", "401", "403", "404"}`
abbrev pub is_answer : String → Bool
is_answer status = status == "200" || (status == "401" || (status == "403" || status == "404"))

module _ (H : Host) (P : Podman H) (F : Files H) where
  abbrev pub create_exanet : Bool → Exec H.State (Unit {0})
  create_exanet true = pure tt
  create_exanet false =
      P.run ("podman" ∷ "network" ∷ "create" ∷ "--subnet" ∷ "10.10.10.0/24" ∷ exanet ∷ [])

  unfoldable pub ensure_exanet : Exec H.State (Unit {0})
  ensure_exanet = do there ← call (P.network_exists exanet); create_exanet there

  -- The template is gone when its `etc` is made, so `mkdir` finds nothing in its way.
  abbrev pub clear_template : Root → Bool → Exec H.State (Unit {0})
  clear_template root true = F.rmtree (template_of root)
  clear_template root false = pure tt

  unfoldable pub write_template : Root → ℕ → ℕ → Exec H.State (Unit {0})
  unfolding init_args modify_args
  write_template root count sync_period = do
    there ← call (F.exists (template_of root))
    clear_template root there
    P.mkdir (template_of root <> "/etc")
    P.run (init_args root count)
    P.run (modify_args root sync_period)

  unfoldable pub start_exa : Root → ℕ → Exec H.State (Unit {0})
  unfolding exa_container exa_run_args
  start_exa root i = do
    P.mkdir (exa_root root i <> "/etc")
    F.copy (exaconf_of root) (exa_root root i <> "/etc/EXAConf")
    call (λ s. (tt, P.remove (exa_container root i) s))
    P.run (exa_run_args root i)

  unfoldable pub start_exas : Root → List ℕ → Exec H.State (Unit {0})
  unfolding start_exa
  start_exas root [] = pure tt
  start_exas root (i ∷ is) = do start_exa root i; start_exas root is

  -- whether bucketfsd answers
  abbrev pub ask : ℕ → H.State → Bool × H.State
  ask i s = let (status, s') = F.http_code (url_of i <> "/") s in (is_answer status, s')

  abbrev pub settle_exa : Root → ℕ → Option (List ℕ) → Exec H.State (Option (Unit {0}))
  settle_exa root deadline none = pure none
  settle_exa root deadline (some []) = pure (some tt)
  settle_exa root deadline (some (i ∷ is)) =
      not_ready H P (exa_container root) ask deadline (i ∷ is)

  -- `none` where the fuel runs out.
  unfoldable pub wait_answers : Root → ℕ → List ℕ → ℕ → Exec H.State (Option (Unit {0}))
  unfolding wait_pending exa_container url_of
  wait_answers root fuel ids deadline = do
    pending ← wait_pending H P (exa_container root) ask fuel 2000000 ids deadline
    settle_exa root deadline pending

  abbrev pub describe_exa : Root → ℕ → List ℕ → ℕ → Passwords → Exa
  describe_exa root count ids sync_period passwords = record {
    nodes = count;
    sync_period_ms = sync_period;
    passwords = passwords;
    node =
        map
          (λ i. (
            "n" <> show i,
            record {
              container = exa_container root i;
              url = url_of i;
              bucket_dir = bucket_dir root i;
              own_dir = exa_root root i <> "/data/bucketfs/bfsdefault/default";
            },
          ))
          ids;
  }

  -- the end of `up`, once the nodes answer
  abbrev pub present_exa : Root → ℕ → List ℕ → ℕ → Option (Unit {0}) → Exec H.State (Option Exa)
  present_exa root count ids sync_period none = pure none
  present_exa root count ids sync_period (some u) = do
    text ← F.read_text (exaconf_of root)
    passwords ← λ s. (read_passwords F.b64decode (exaconf_of root) text, s)
    pure (some (describe_exa root count ids sync_period passwords))

  unfoldable pub up_exa : Root → ℕ → ℕ → ℕ → ℕ → Exec H.State (Option Exa)
  unfolding ensure_exanet write_template start_exas wait_answers exa_container url_of bucket_dir
      read_passwords exa_ids
  up_exa root fuel count sync_period deadline = do
    ensure_exanet
    P.mkdir root.path
    write_template root count sync_period
    start_exas root (exa_ids count)
    ready ← wait_answers root fuel (exa_ids count) deadline
    present_exa root count (exa_ids count) sync_period ready

  unfoldable pub down_exa : Root → ℕ → Exec H.State (Unit {0})
  unfolding exa_ids exa_container
  down_exa root count = call (λ s. (tt, remove_all P (exa_container root) (exa_ids count) s))
