-- ===== src/Tests/Shelf.antt =====
-- Taking a cluster down on a machine whose state is the names of its containers.
use syncfs.Base.{◌≡◌, refl, true, false, not, none, String, List, [], ◌∷◌, arith, keep}
use syncfs.Base.Equality.{string_eq, contains}
use syncfs.Base.Exec.{ok}
use syncfs.Host.{Host, absent}
use syncfs.Podman.{Podman}
use syncfs.Exasol.{Files, down_exa}
use syncfs.ExaNet.{exa_container, exa_ids}
use syncfs.Base.Decimal.{show}
use syncfs.Matrix.Drive.{Purge, purge, cluster_down}
use syncfs.Matrix.Drive.Down.{IsRemoval, GoneAll, cluster_down-Gone}

abbrev shelf : Host
shelf = record {
  State = List String;
  time = λ s. (0, s);
  sleep = λ d s. s;
  stat = λ p s. (absent, s);
  lstat = λ p s. (absent, s);
  walk = λ p s. ([], s);
  file_digest = λ p s. (ok "", s);
  files_below = λ p s. ([], s);
  write_lines = λ p l s. (ok tt, s);
  hexdigest = λ l. "";
}

abbrev without : String → List String → List String
without n s = keep (λ m. not (string_eq.eqb m n)) s

abbrev podman : Podman shelf
podman = record {
  run = λ args s. (ok tt, s);
  network_exists = λ n s. (true, s);
  remove = without;
  status = λ n s. ("", s);
  pid = λ n s. ("", s);
  logs = λ n s. ("", s);
  tail = λ n s. ("", s);
  mkdir = λ p s. (ok tt, s);
  write_text = λ p t s. (ok tt, s);
  limits = λ p s. (none, s);
  int = λ t. none;
  seconds = λ d. "";
  uid = "1000";
}

abbrev files : Files shelf
files = record {
  exists = λ p s. (true, s);
  rmtree = λ p s. (ok tt, s);
  copy = λ a b s. (ok tt, s);
  read_text = λ p s. (ok "", s);
  http_code = λ u s. ("000", s);
  b64decode = λ t. ok t;
}

abbrev cleaning : Purge shelf
cleaning = record { unshare = λ p s. s; rmtree = λ p s. s }

contains-without : (n : String) (s : List String) → contains n (without n s) ≡ false
contains-without n [] = refl
contains-without n (m ∷ s) =
    ground (arith, string_eq.eqb_iff m n, string_eq.eqb_iff n m, contains-without n s)

contains-without_other :
    (n m : String) (s : List String) → contains n s ≡ false → contains n (without m s) ≡ false
contains-without_other n m [] h = refl
contains-without_other n m (k ∷ s) h = ground (arith, contains-without_other n m s)

abbrev removal : IsRemoval podman files cleaning
removal = record {
  present = contains;
  remove_clears = contains-without;
  remove_keeps = contains-without_other;
  exists_keeps = λ n p s h. h;
  unshare_keeps = λ n p s h. h;
  rmtree_keeps = λ n p s h. h;
}

abbrev standing : List String
standing = "exa-bucketfs-default-2-n11" ∷ "other" ∷ "exa-bucketfs-default-2-n12" ∷ []

cluster_down-Gone_example :
    ((cluster_down shelf podman files cleaning "bucketfs" 2 "/r/bucketfs-default-2" standing).0
      ≡ ok tt)
    × GoneAll removal "bucketfs" 2 "/r/bucketfs-default-2"
        (cluster_down shelf podman files cleaning "bucketfs" 2 "/r/bucketfs-default-2" standing).1
cluster_down-Gone_example =
    cluster_down-Gone shelf podman files cleaning removal "bucketfs" 2 "/r/bucketfs-default-2"
      standing

down_run :
    (cluster_down shelf podman files cleaning "bucketfs" 2 "/r/bucketfs-default-2" standing).1
    ≡ "other" ∷ []
unfolding cluster_down purge down_exa exa_ids exa_container show
down_run = refl
