-- ===== src/Matrix/Cells/Written/Bodies.antt =====
-- What the bodies of the writer threads of tools/measure/bucketfs/run_matrix.py have done where they
-- leave no error.
use syncfs.Base.{
  ℕ, ◌≡◌, refl, ◌⊎◌, inl, inr, Bool, true, false, none, some, List, [], ◌∷◌, String, ◌<>◌, arith,
  All, Bool-cases, if◌then◌else◌,
}
use syncfs.Base.Equality.{◌==◌, string_eq}
use syncfs.Base.Dict
use syncfs.Base.Dict.{Dict}
use syncfs.Base.Exec.{Result, ok, raised, Exn}
use syncfs.Host.{Host}
use syncfs.Matrix.Bucket.{Bucket, put, bucket_at}
use syncfs.Matrix.Experiments.{small_file}
use syncfs.Matrix.Rows.{range}
use syncfs.Matrix.Workshop.{
  Site, Info, Workshop, Body, ended, Ran, is_good, put_error, error_of, copied, answered, file_name,
  copies, puts, copy_body, put_body,
}

-- The three statuses of a file that was taken.
abbrev pub IsTaken : ℕ → Type 0
IsTaken status = (status ≡ 200) ⊎ (status ≡ 201) ⊎ (status ≡ 204)

taken : (status : ℕ) → is_good status ≡ true → IsTaken status
taken status h = ground arith

module _ (H : Host) (W : Workshop H) where
  -- A copy that was made, and a file that a bucket took.
  abbrev pub Copied : String → String → Type 0
  Copied src dst = (s : H.State) × ((W.copyfile src dst s).0 ≡ ok tt)

  abbrev pub Put : Bucket → String → String → ℕ → Type 0
  Put bucket name path size =
      (s : H.State) × (status : ℕ) × ((put H W.http bucket name path size s).0 ≡ ok status)
      × IsTaken status

  -- The writer has copied the payload to its own directory, or its bucket has taken it.
  abbrev pub FileWritten : Info → String → String → String → ℕ → Type 0
  FileWritten info name payload writer size =
      (((info.system == "syncfs") ≡ true)
        × (site : Site) × (Dict.get writer info.node ≡ some site)
        × Copied payload (site.data_dir <> ("/" <> name)))
      ⊎ (((info.system == "syncfs") ≡ false)
          × (site : Site) × (bucket : Bucket) × (Dict.get writer info.node ≡ some site)
          × (bucket_at site.url info.write_passwd ≡ some bucket)
          × Put bucket name payload size)

  -- The same of every file of a tree, whose directory the writer has made.
  abbrev pub TreeWritten : Info → String → String → String → ℕ → Type 0
  TreeWritten info prefix unit writer count =
      (((info.system == "syncfs") ≡ true)
        × (site : Site) × (Dict.get writer info.node ≡ some site)
        × ((s : H.State) × ((W.mkdir (site.data_dir <> ("/" <> prefix)) s).0 ≡ ok tt))
        × All (λ i. Copied unit ((site.data_dir <> ("/" <> prefix)) <> ("/" <> file_name i)))
            (range count))
      ⊎ (((info.system == "syncfs") ≡ false)
          × (site : Site) × (bucket : Bucket) × (Dict.get writer info.node ≡ some site)
          × (bucket_at site.url info.write_passwd ≡ some bucket)
          × All (λ i. Put bucket (prefix <> ("/" <> file_name i)) unit small_file) (range count))

  error_of-none : (r : Result (Unit {0})) → error_of r ≡ none → r ≡ ok tt
  error_of-none (ok u) h = refl
  error_of-none (raised e) h = absurd cc

  put_error-none :
      (r : Result ℕ) → put_error r ≡ none → (status : ℕ) × (r ≡ ok status) × IsTaken status
  put_error-none (raised e) h = absurd cc
  put_error-none (ok status) h = elim (Bool-cases (is_good status)) [
    | inl good ↦ (status, refl, taken status good)
    | inr bad ↦ absurd (ground (arith, h))
  ]

  pub copy_body-Copied : (src dst : String) → Ran H (copy_body H W src dst) none → Copied src dst
  unfolding Ran copy_body
  copy_body-Copied src dst (s, h) = (s, error_of-none (W.copyfile src dst s).0 h)

  pub put_body-Put :
      (bucket : Bucket) (name path : String) (size : ℕ)
      → Ran H (put_body H W bucket name path size) none
      → Put bucket name path size
  unfolding Ran put_body
  put_body-Put bucket name path size (s, h) =
      let (status, e, good) = put_error-none (put H W.http bucket name path size s).0 h in
      (s, status, e, good)

  -- A copy of the loop that leaves no error was made, and so was what follows it.
  pub copied-none :
      (next : Body H) (r : Result (Unit {0}))
      → Ran H (copied next r) none
      → (r ≡ ok tt) × Ran H next none
  unfolding Ran
  copied-none next (ok u) h = (refl, h)
  copied-none next (raised e) h = absurd cc

  answered-none :
      (i : ℕ) (next : Body H) (r : Result ℕ)
      → Ran H (answered i next r) none
      → ((status : ℕ) × (r ≡ ok status) × IsTaken status) × Ran H next none
  unfolding Ran
  answered-none i next (raised e) h = absurd cc
  answered-none i next (ok status) h = go (is_good status) _ refl h
    where
      go :
          (b : Bool) (x : Exn)
          → is_good status ≡ b
          → Ran H (if b then next else ended (some x)) none
          → ((status' : ℕ) × (ok status ≡ ok status') × IsTaken status') × Ran H next none
      go true x e k = ((status, refl, taken status e), k)
      go false x e k = absurd cc

  pub copies-Copied :
      (unit target : String) (is : List ℕ)
      → Ran H (copies H W unit target is) none
      → All (λ i. Copied unit (target <> ("/" <> file_name i))) is
  unfolding Ran copies
  copies-Copied unit target [] h = tt
  copies-Copied unit target (i ∷ is) (s, h) =
      let (e, k) =
        copied-none (copies H W unit target is)
          (W.copyfile unit (target <> ("/" <> file_name i)) s).0 h in
      ((s, e), copies-Copied unit target is k)

  pub puts-Put :
      (bucket : Bucket) (prefix unit : String) (is : List ℕ)
      → Ran H (puts H W bucket prefix unit is) none
      → All (λ i. Put bucket (prefix <> ("/" <> file_name i)) unit small_file) is
  unfolding Ran puts
  puts-Put bucket prefix unit [] h = tt
  puts-Put bucket prefix unit (i ∷ is) (s, h) =
      let (e, k) =
        answered-none i (puts H W bucket prefix unit is)
          (put H W.http bucket (prefix <> ("/" <> file_name i)) unit small_file s).0 h in
      let (status, r, good) = e in ((s, status, r, good), puts-Put bucket prefix unit is k)
