-- ===== src/Matrix/Cells/Written/Joins.antt =====
-- Each start of a writer thread of tools/measure/bucketfs/run_matrix.py returns a join that, where it
-- does not raise, tells what the body has done.
use syncfs.Base.{
  ℕ, ◌≤◌, ◌≡◌, refl, inl, inr, Bool, true, false, Option, none, some, [], ◌∷◌, String, ◌<>◌, arith,
  All, Bool-cases,
}
use mathlib.Core.Path.{subst}
use syncfs.Base.Equality.{◌==◌, string_eq}
use syncfs.Base.Dict
use syncfs.Base.Dict.{Dict}
use syncfs.Base.Exec.{ok, Exn, Exec, Ensures, ◌>>=◌}
use syncfs.Host.{Host, IsClock}
use syncfs.Poller.Watch.{Nodes}
use syncfs.Matrix.Bucket.{Bucket, bucket_at}
use syncfs.Matrix.Rows.{range}
use syncfs.Matrix.Workshop.{
  Site, Info, is_syncfs, Workshop, IsThreaded, Body, Ran, file_name, copies, copy_body, put_body,
  tree_copy_body, tree_put_body, target_paths, dirs_onto,
}
use syncfs.Matrix.Cells.Written.Bodies.{
  Copied, FileWritten, TreeWritten, copy_body-Copied, put_body-Put, copied-none, copies-Copied,
  puts-Put,
}
use syncfs.Matrix.Cells.{
  raise_first, join_thread, spawned, new_bucket, start_write, start_tree, key_error, spawn_copy,
  spawn_put, spawn_tree_copy, spawn_tree_put,
}

-- The directory of a node of a mesh.
found_dir :
    (info : Info) (suffix : String) (d : Dict String Site) (writer dst : String)
    → is_syncfs info ≡ true
    → Dict.get writer (dirs_onto info suffix d) ≡ some dst
    → (site : Site) × (Dict.get writer d ≡ some site) × (dst ≡ site.data_dir <> suffix)
found_dir info suffix [] writer dst h e = absurd cc
found_dir info suffix ((name, site) ∷ rest) writer dst h e =
    elim (Bool-cases (string_eq.eqb name writer)) [
      | inl same ↦ (site, rw same refl, ground (arith, e))
      | inr other ↦
          let (s, g, p) = found_dir info suffix rest writer dst h (ground (arith, e)) in
          (s, rw other g, p)
    ]

module _ (H : Host) (W : Workshop H) where
  -- A join that returns tells of A.
  abbrev pub Tells : Type 0 → Exec H.State (Unit {0}) → Type 0
  Tells A join = (s : H.State) → Ensures (λ (u : Unit {0}) (t : H.State). A) (join s)

  raise_first_tells :
      (A : Type 0) (e : Option Exn) (s : H.State)
      → (e ≡ none → A)
      → Ensures (λ (u : Unit {0}) (t : H.State). A) (raise_first H W e s)
  raise_first_tells A none s f = f refl
  raise_first_tells A (some e) s f = tt

  module _ (C : IsClock H) (T : IsThreaded H W)
      (begun : (b : Body H) (s : H.State) → C.now s ≤ C.now (W.start b s).1) where
    -- A start that does not raise returns a join that tells of A.
    abbrev pub Begins : Type 0 → Exec H.State (Exec H.State (Unit {0})) → Type 0
    Begins A start =
        (s : H.State) → Ensures (λ join t. Tells A join × (C.now s ≤ C.now t)) (start s)

    spawned-Begins :
        (A : Type 0) (close : H.State → H.State) (body : Body H)
        → (Ran H body none → A)
        → Begins A (spawned H W close body)
    unfolding join_thread
    spawned-Begins A close body f s = (
      λ t.
          raise_first_tells A (W.join (W.start body s).0 t).0
            (close (W.join (W.start body s).0 t).1)
            (λ e. f (subst (Ran H body) e (T.ran body s t))),
      begun body s,
    )

    found_Begins :
        {B : Type 0} (A : Type 0) (key : String) (o : Option B)
        (f : B → Exec H.State (Exec H.State (Unit {0})))
        → ((b : B) → o ≡ some b → Begins A (f b))
        → Begins A (key_error H W key o >>= f)
    found_Begins A key none f h s = tt
    found_Begins A key (some b) f h s = h b refl s

    bucket_Begins :
        (A : Type 0) (o : Option Bucket) (f : Bucket → Exec H.State (Exec H.State (Unit {0})))
        → ((b : Bucket) → o ≡ some b → Begins A (f b))
        → Begins A (new_bucket H W o >>= f)
    bucket_Begins A none f h s = tt
    bucket_Begins A (some b) f h s = h b refl s

    pub start_write-Begins :
        (info : Info) (writer name payload : String) (size : ℕ)
        → Begins
            (FileWritten H W info name payload writer size)
            (start_write H W info writer name payload size)
    unfolding start_write target_paths spawn_copy spawn_put
    start_write-Begins info writer name payload size = go (info.system == "syncfs") refl
      where
        A : Type 0
        A = FileWritten H W info name payload writer size

        go :
            (b : Bool)
            → (info.system == "syncfs") ≡ b
            → Begins A (elim b [
              | true ↦
                  key_error H W writer (Dict.get writer (dirs_onto info ("/" <> name) info.node))
                  >>= spawn_copy H W payload
              | false ↦ key_error H W writer (Dict.get writer info.node) >>= λ site.
                  new_bucket H W (bucket_at site.url info.write_passwd) >>= λ bucket.
                  spawn_put H W bucket name payload size
            ])
        go true mesh =
            found_Begins A writer (Dict.get writer (dirs_onto info ("/" <> name) info.node)) _
              (λ dst found.
                spawned-Begins A (λ s. s) (copy_body H W payload dst)
                  (λ ran.
                    let (site, at, e) =
                      found_dir info ("/" <> name) info.node writer dst mesh found in
                    inl (
                      mesh,
                      site,
                      at,
                      subst (Copied H W payload) e (copy_body-Copied H W payload dst ran),
                    )))
        go false other = found_Begins A writer (Dict.get writer info.node) _ (λ site at.
            bucket_Begins A (bucket_at site.url info.write_passwd) _ (λ bucket e.
              spawned-Begins A (W.http.close bucket) (put_body H W bucket name payload size) (λ ran.
                inr (other, site, bucket, at, e, put_body-Put H W bucket name payload size ran))))

    pub start_tree-Begins :
        (info : Info) (writer prefix unit : String) (count : ℕ)
        → Begins
            (TreeWritten H W info prefix unit writer count)
            (start_tree H W info writer prefix unit count)
    unfolding start_tree spawn_tree_copy spawn_tree_put tree_copy_body tree_put_body Ran
    start_tree-Begins info writer prefix unit count = go (info.system == "syncfs") refl
      where
        A : Type 0
        A = TreeWritten H W info prefix unit writer count

        dirs : Nodes
        dirs = dirs_onto info ("/" <> prefix) info.node

        Made : String → Type 0
        Made d = (t : H.State) × ((W.mkdir d t).0 ≡ ok tt)

        AllCopied : String → Type 0
        AllCopied d = All (λ i. Copied H W unit (d <> ("/" <> file_name i))) (range count)

        go :
            (b : Bool)
            → (info.system == "syncfs") ≡ b
            → Begins A (elim b [
              | true ↦ key_error H W writer (Dict.get writer dirs) >>= λ dst.
                  spawn_tree_copy H W unit dst count
              | false ↦ key_error H W writer (Dict.get writer info.node) >>= λ site.
                  new_bucket H W (bucket_at site.url info.write_passwd) >>= λ bucket.
                  spawn_tree_put H W bucket prefix unit count
            ])
        go true mesh = found_Begins A writer (Dict.get writer dirs) _ (λ dst found.
            spawned-Begins A (λ s. s) (tree_copy_body H W unit dst count)
              (λ (s, ran).
                let (site, at, e) =
                  found_dir info ("/" <> prefix) info.node writer dst mesh found in
                let (made, rest) =
                  copied-none H W (copies H W unit dst (range count)) (W.mkdir dst s).0 ran in
                inl (
                  mesh,
                  site,
                  at,
                  subst Made e (s, made),
                  subst AllCopied e (copies-Copied H W unit dst (range count) rest),
                )))
        go false other = found_Begins A writer (Dict.get writer info.node) _ (λ site at.
            bucket_Begins A (bucket_at site.url info.write_passwd) _ (λ bucket e.
              spawned-Begins A (W.http.close bucket) (tree_put_body H W bucket prefix unit count)
                (λ ran.
                  inr (
                    other,
                    site,
                    bucket,
                    at,
                    e,
                    puts-Put H W bucket prefix unit (range count) ran,
                  ))))
