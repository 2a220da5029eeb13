-- ===== src/Poller/Main.antt =====
-- `main` of tools/measure/bucketfs/poller.py: the targets, and the exit code.
use Prim.Native.Char.{code}
use Prim.Native.String.append
use syncfs.Base.{
  ℕ, ◌≡◌, ◌↔◌, refl, ap, sym, ◌∙◌, true, false, inl, inr, Bool-cases, Option, none, some, List, [],
  ◌∷◌, ◌++◌, map, String, ◌<>◌, arith, if◌then◌else◌, nat_beq, length, is_empty, All,
}
use mathlib.Core.List.{append-nil, append_assoc}
use syncfs.Base.Equality.{◌==◌, string_eq}
use syncfs.Base.Dict
use syncfs.Base.Dict.{Dict}
use syncfs.Base.Exec.{Result, ok, raised, system_exit}
use syncfs.Poller.Watch.{Record, Nodes}
use syncfs.Matrix.Summary.{hashes_of, distinct}
use syncfs.Matrix.Summary.Converged.{Unanimous, distinct_one, one_distinct}

-- `target.partition("=")`, without the middle
unfoldable pub partition : String → String × String
partition String.[] = (String.[], String.[])
partition (String.◌∷◌ c s) =
    let (name, path) = partition s in
    if nat_beq (code c) 61 then (String.[], s) else (String.◌∷◌ c name, path)

-- `nodes`, or the exit of `parser.error`
unfoldable pub parse_targets : List String → Nodes → Result Nodes
unfolding partition
parse_targets [] nodes = ok nodes
parse_targets (target ∷ rest) nodes =
    let (name, path) = partition target in
    let later = parse_targets rest (Dict.put name path nodes) in
    if string_eq.eqb path ""
    then raised (system_exit ("expected NAME=PATH, got '" <> (target <> "'")))
    else later

-- `[n for n, r in records.items() if r["arrived_at"] is None]`
unfoldable pub missing_of : Dict String Record → List String
missing_of [] = []
missing_of ((name, r) ∷ rest) =
    let others = missing_of rest in elim r.arrived_at [ none ↦ name ∷ others | some t ↦ others ]

-- what `main` returns
unfoldable pub exit_code : Dict String Record → ℕ
unfolding missing_of distinct
exit_code records =
    if is_empty (missing_of records)
    then (if nat_beq (length (distinct (hashes_of records))) 1 then 0 else 1)
    else 1

-- A text with no equals sign.
abbrev pub Plain : String → Type 0
Plain String.[] = Unit
Plain (String.◌∷◌ c s) = (nat_beq (code c) 61 ≡ false) × Plain s

-- What stands behind the name.
behind_name : (path : String) → "" <> ("=" <> path) ≡ String.◌∷◌ "=" path
behind_name path =
    (λ i. append.nil ("=" <> path) i)
    ∙ (λ i. append.cons "=" "" path i)
    ∙ ap (String.◌∷◌ "=") (λ i. append.nil path i)

partition-append :
    (name path : String) → Plain name → partition (name <> ("=" <> path)) ≡ (name, path)
unfolding partition
partition-append String.[] path h = ap partition (behind_name path)
partition-append (String.◌∷◌ c s) path (other, h) =
    ap partition (λ i. append.cons c s ("=" <> path) i) ∙ rw (other, partition-append s path h) refl

abbrev pub target_of : String × String → String
target_of (name, path) = name <> ("=" <> path)

-- A name with no equals sign, and a path that is not empty.
abbrev pub IsTarget : String × String → Type 0
IsTarget (name, path) = Plain name × ((path == "") ≡ false)

-- None of the nodes has the name of a target.
abbrev Fresh : Nodes → Nodes → Type 0
Fresh nodes targets = All (λ target. Dict.get target.0 nodes ≡ none) targets

put_fresh :
    (name path : String) (nodes : Nodes)
    → Dict.get name nodes ≡ none
    → Dict.put name path nodes ≡ nodes ++ ((name, path) ∷ [])
put_fresh name path [] h = refl
put_fresh name path ((n, p) ∷ nodes) h = elim (Bool-cases (string_eq.eqb n name)) [
  | inl same ↦ absurd (ground (arith, h))
  | inr other ↦ rw (other, put_fresh name path nodes (ground (arith, h))) refl
]

Fresh-put :
    (name path : String) (nodes targets : Nodes)
    → Dict.get name targets ≡ none
    → Fresh nodes targets
    → Fresh (Dict.put name path nodes) targets
Fresh-put name path nodes [] h f = tt
Fresh-put name path nodes ((n, p) ∷ targets) h (f, fs) = elim (Bool-cases (string_eq.eqb n name)) [
  | inl same ↦ absurd (ground (arith, h))
  | inr other ↦ (
    rw (Dict.get-put, f)
        (ground (arith, other, string_eq.eqb_iff n name, string_eq.eqb_iff name n)),
    Fresh-put name path nodes targets (ground (arith, h)) fs,
  )
]

parse_targets_onto :
    (targets nodes : Nodes)
    → All IsTarget targets
    → Dict.NodupKeys targets
    → Fresh nodes targets
    → parse_targets (map target_of targets) nodes ≡ ok (nodes ++ targets)
unfolding parse_targets
parse_targets_onto [] nodes h d f = ap ok (sym (append-nil nodes))
parse_targets_onto ((name, path) ∷ targets) nodes ((plain, some_path), h) (new, d) (fresh, f) =
    rw (partition-append name path plain, some_path)
      (parse_targets_onto targets (Dict.put name path nodes) h d
          (Fresh-put name path nodes targets new f)
        ∙ ap (λ l. ok (l ++ targets)) (put_fresh name path nodes fresh)
        ∙ ap ok (append_assoc nodes ((name, path) ∷ []) targets))

-- Targets NAME=PATH are read back as the names and the paths that they were made of, in their order,
-- where no name has an equals sign, no path is empty, and the names are distinct. A path may have an
-- equals sign.
pub parse_targets_lem :
    (targets : Nodes)
    → All IsTarget targets
    → Dict.NodupKeys targets
    → parse_targets (map target_of targets) [] ≡ ok targets
parse_targets_lem targets h d = parse_targets_onto targets [] h d (all_fresh targets)
  where
    all_fresh : (l : Nodes) → Fresh [] l
    all_fresh [] = tt
    all_fresh (x ∷ l) = (refl, all_fresh l)

abbrev pub HasArrived : String × Record → Type 0
HasArrived (name, r) = (t : ℕ) × (r.arrived_at ≡ some t)

missing_of_cons :
    (name : String) (r : Record) (rest : Dict String Record) (o : Option ℕ)
    → r.arrived_at ≡ o
    → (is_empty (missing_of rest) ≡ true) ↔ All HasArrived rest
    → (is_empty (missing_of ((name, r) ∷ rest)) ≡ true) ↔ All HasArrived ((name, r) ∷ rest)
unfolding missing_of
missing_of_cons name r rest none e ih =
    (λ h. absurd (ground arith), λ (k, _). absurd (ground arith))
missing_of_cons name r rest (some t) e ih =
    (λ h. ((t, e), ih.0 (ground arith)), λ (k, ks). ground (arith, ih.1 ks))

missing_of_iff :
    (records : Dict String Record) → (is_empty (missing_of records) ≡ true) ↔ All HasArrived records
unfolding missing_of
missing_of_iff [] = (λ h. tt, λ h. refl)
missing_of_iff ((name, r) ∷ rest) =
    missing_of_cons name r rest r.arrived_at refl (missing_of_iff rest)

-- The exit code is 0 exactly where every record has an arrival and the hashes are all the same, and
-- at least one.
pub exit_code_iff :
    (records : Dict String Record)
    → (exit_code records ≡ 0) ↔ (All HasArrived records × Unanimous (hashes_of records))
unfolding exit_code
exit_code_iff records = (
  λ h. ((missing_of_iff records).0 (ground arith), distinct_one (hashes_of records) (ground arith)),
  λ (all, same).
      ground (arith, (missing_of_iff records).1 all, one_distinct (hashes_of records) same),
)
