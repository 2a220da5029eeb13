-- ===== src/ExaNet.antt =====
-- tools/measure/bucketfs/exasol_cluster.py: the names, addresses and podman command lines of a
-- BucketFS cluster.
use syncfs.Base.{ℕ, ◌+◌, ◌-◌, List, [], ◌∷◌, map, String, ◌<>◌}
use syncfs.Base.Decimal.{show}
use syncfs.Matrix.Rows.{range}
use syncfs.Podman.{Root}

abbrev pub image : String
image = "docker.io/exasol/docker-db:2026.1.1"

abbrev pub exanet : String
exanet = "exanet"

abbrev pub first_id : ℕ
first_id = 11

unfoldable pub exa_ids : ℕ → List ℕ
exa_ids count = map (λ i. 11 + i) (range count)

unfoldable pub node_ip : ℕ → String
node_ip i = "10.10.10." <> show i

-- The ids are 11 and more.
unfoldable pub host_port : ℕ → ℕ
host_port i = 2600 + (i - 11)

unfoldable pub exa_container : Root → ℕ → String
exa_container root i = "exa-" <> (root.name <> ("-n" <> show i))

abbrev pub exa_root : Root → ℕ → String
exa_root root i = root.path <> ("/n" <> show i)

abbrev pub template_of : Root → String
template_of root = root.path <> "/_template"

abbrev pub exaconf_of : Root → String
exaconf_of root = template_of root <> "/etc/EXAConf"

-- the two containers that make the template
unfoldable pub init_args : Root → ℕ → List String
unfolding node_ip
init_args root count =
    "podman"
    ∷ "run"
    ∷ "--rm"
    ∷ "--privileged"
    ∷ "--network"
    ∷ exanet
    ∷ "--ip"
    ∷ node_ip 11
    ∷ "-v"
    ∷ (template_of root <> ":/exa:Z")
    ∷ image
    ∷ "init-sc"
    ∷ "--template"
    ∷ "--num-nodes"
    ∷ show count
    ∷ "--node-id"
    ∷ show 11
    ∷ "--no-db"
    ∷ "--no-odirect"
    ∷ []

unfoldable pub modify_args : Root → ℕ → List String
modify_args root sync_period =
    "podman"
    ∷ "run"
    ∷ "--rm"
    ∷ "--privileged"
    ∷ "-v"
    ∷ (template_of root <> ":/exa:Z")
    ∷ "--entrypoint"
    ∷ "/opt/exasol/cos-8.66.7/bin/exaconf"
    ∷ image
    ∷ "modify-bucketfs"
    ∷ "--name"
    ∷ "bfsdefault"
    ∷ "--http-port"
    ∷ "2580"
    ∷ "--sync-period"
    ∷ show sync_period
    ∷ "/exa/etc/EXAConf"
    ∷ []

unfoldable pub exa_run_args : Root → ℕ → List String
unfolding exa_container node_ip host_port
exa_run_args root i =
    "podman"
    ∷ "run"
    ∷ "-d"
    ∷ "--name"
    ∷ exa_container root i
    ∷ "--privileged"
    ∷ "--hostname"
    ∷ ("n" <> show i)
    ∷ "--network"
    ∷ exanet
    ∷ "--ip"
    ∷ node_ip i
    ∷ "-v"
    ∷ (exa_root root i <> ":/exa:Z")
    ∷ "-p"
    ∷ (show (host_port i) <> ":2580")
    ∷ image
    ∷ "init-sc"
    ∷ "--num-nodes"
    ∷ "0"
    ∷ "--node-id"
    ∷ show i
    ∷ "--no-db"
    ∷ "--no-odirect"
    ∷ []

unfoldable pub url_of : ℕ → String
unfolding host_port
url_of i = "http://localhost:" <> (show (host_port i) <> "/default")

unfoldable pub bucket_dir : Root → ℕ → String
bucket_dir root i = exa_root root i <> "/data/bucketfs/bfsdefault/.dest/default"
