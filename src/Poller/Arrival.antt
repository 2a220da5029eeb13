-- ===== src/Poller/Arrival.antt =====
-- When a path counts as arrived: `file_size`, `complete`, `tree_size` and `tree_sha256` of
-- tools/measure/bucketfs/poller.py.
use syncfs.Base.{
  ℕ, ◌+◌, ◌*◌, ◌≤◌, ◌≡◌, inl, inr, Bool-cases, Bool, true, false, ◌&&◌, List, [], ◌∷◌, ◌++◌, String,
  arith, leb, nat_beq, if◌then◌else◌,
}
use mathlib.Core.Path.{subst}
use syncfs.Base.Int.{ℤ, pos, negsuc}
use syncfs.Base.Exec.{Result, ok, raised, os_error, Exec, pure, ◌>>=◌}
use syncfs.Host.{Host, IsClock, Stat, StatReply, found, absent, failed}

-- `stat.st_size == size and stat.st_blocks * 512 >= size`
unfoldable pub holds : ℕ → StatReply → Result Bool
holds size (found st) = ok (nat_beq st.st_size size && leb size (st.st_blocks * 512))
holds size absent = ok false
holds size (failed message) = raised (os_error message)

-- The size of a path, or -1 if it is not there yet.
unfoldable pub size_of : StatReply → Result ℤ
size_of (found st) = ok (pos st.st_size)
size_of absent = ok (negsuc 0)
size_of (failed message) = raised (os_error message)

-- A file that `tree_size` counts: regular, and with a block for every byte.
unfoldable pub counted : StatReply → Bool
counted (found st) = st.is_reg && leb st.st_size (st.st_blocks * 512)
counted absent = false
counted (failed message) = false

abbrev pub bytes : StatReply → ℕ
bytes (found st) = st.st_size
bytes absent = 0
bytes (failed message) = 0

module _ (H : Host) where
  unfoldable pub file_size : String → Exec H.State ℤ
  unfolding size_of
  file_size path s = let (reply, s') = H.stat path s in (size_of reply, s')

  unfoldable pub complete : String → ℕ → Exec H.State Bool
  unfolding holds
  complete path size s = let (reply, s') = H.stat path s in (holds size reply, s')

  -- One pass over the names of the walk, each of which may be gone by the time it is looked at.
  unfoldable pub count_files : List String → ℕ × ℕ → H.State → (ℕ × ℕ) × H.State
  unfolding counted
  count_files [] acc s = (acc, s)
  count_files (entry ∷ rest) (count, total) s =
      let (reply, s') = H.lstat entry s in
      count_files rest (if counted reply then (count + 1, total + bytes reply) else (count, total))
        s'

  unfoldable pub tree_size : String → H.State → (ℕ × ℕ) × H.State
  unfolding count_files
  tree_size path s = let (names, s') = H.walk path s in count_files names (0, 0) s'

  -- The updates that `tree_sha256` feeds its digest: each relative path and each content hash,
  -- closed by a NUL.
  unfoldable pub tree_updates : List (String × String) → List String → Exec H.State (List String)
  tree_updates [] out = pure out
  tree_updates ((entry, relative) ∷ rest) out = do
    h ← H.file_digest entry
    tree_updates rest (out ++ (relative ∷ "\0" ∷ h ∷ "\0" ∷ []))

  -- The answers that the walk gets, in its order.
  unfoldable pub replies : List String → H.State → List StatReply
  replies [] s = []
  replies (entry ∷ rest) s = (H.lstat entry s).0 ∷ replies rest (H.lstat entry s).1

  -- A regular file that has a block for every byte.
  abbrev pub IsWhole : StatReply → Type 0
  IsWhole (found st) = (st.is_reg ≡ true) × (st.st_size ≤ st.st_blocks * 512)
  IsWhole absent = ⊥
  IsWhole (failed message) = ⊥

  -- Among the answers are so many whole files, with so many bytes, and no more.
  pub data Tallied : List StatReply → ℕ → ℕ → Type 0 where
    no_more : Tallied [] 0 0
    counts :
        (st : Stat) (rest : List StatReply) (count total : ℕ)
        → IsWhole (found st)
        → Tallied rest count total
        → Tallied (found st ∷ rest) (1 + count) (st.st_size + total)
    skips :
        (r : StatReply) (rest : List StatReply) (count total : ℕ)
        → ¬ (IsWhole r)
        → Tallied rest count total
        → Tallied (r ∷ rest) count total

  -- What count_files adds to what it is given.
  abbrev Counted : List StatReply → ℕ → ℕ → ℕ × ℕ → Type 0
  Counted rs count total r =
      (n : ℕ) × (m : ℕ) × Tallied rs n m × (r.0 ≡ count + n) × (r.1 ≡ total + m)

  one_more :
      (st : Stat) (rest : List StatReply) (count total : ℕ) (r : ℕ × ℕ)
      → IsWhole (found st)
      → Counted rest (count + 1) (total + st.st_size) r
      → Counted (found st ∷ rest) count total r
  one_more st rest count total r whole (n, m, tallied, cs, ts) = (
    1 + n,
    st.st_size + m,
    counts st rest n m whole tallied,
    omega (arith, cs),
    omega (arith, ts),
  )

  not_more :
      (reply : StatReply) (rest : List StatReply) (count total : ℕ) (r : ℕ × ℕ)
      → ¬ (IsWhole reply)
      → Counted rest count total r
      → Counted (reply ∷ rest) count total r
  not_more reply rest count total r hollow (n, m, tallied, cs, ts) =
      (n, m, skips reply rest n m hollow tallied, cs, ts)

  count_files-Counted :
      (names : List String) (count total : ℕ) (s : H.State)
      → Counted (replies names s) count total (count_files names (count, total) s).0
  unfolding count_files replies counted
  count_files-Counted [] count total s = (0, 0, no_more, omega arith, omega arith)
  count_files-Counted (entry ∷ rest) count total s =
      go (H.lstat entry s).0 (H.lstat entry s).1
        (λ c t. count_files-Counted rest c t (H.lstat entry s).1)
    where
      go :
          (reply : StatReply) (s' : H.State)
          → ((c t : ℕ) → Counted (replies rest s') c t (count_files rest (c, t) s').0)
          → Counted
              (reply ∷ replies rest s')
              count
              total
              (count_files rest
                (if counted reply then (count + 1, total + bytes reply) else (count, total))
                s').0
      go absent s' more = not_more absent _ count total _ (λ h. h) (more count total)
      go (failed message) s' more =
          not_more (failed message) _ count total _ (λ h. h) (more count total)
      go (found st) s' more = elim (Bool-cases (st.is_reg && leb st.st_size (st.st_blocks * 512))) [
        | inl yes' ↦
            rw yes'
              (one_more st _ count total _ (ground arith) (more (count + 1) (total + st.st_size)))
        | inr no' ↦
            rw no' (not_more (found st) _ count total _ (λ (h, k). ground arith) (more count total))
      ]

  -- The pair that `tree_size` returns is the number, and the total size, of the regular files that
  -- have a block for every byte, among the answers that the walk of the path got.
  pub tree_size_lem :
      (path : String) (s : H.State)
      → let (names, t) = H.walk path s in
        Tallied (replies names t) (tree_size path s).0.0 (tree_size path s).0.1
  unfolding tree_size
  tree_size_lem path s =
      let (n, m, tallied, cs, ts) = count_files-Counted (H.walk path s).0 0 0 (H.walk path s).1 in
      subst (λ c. Tallied (replies (H.walk path s).0 (H.walk path s).1) c (tree_size path s).0.1)
        (omega (arith, cs))
        (subst (λ t. Tallied (replies (H.walk path s).0 (H.walk path s).1) n t) (omega (arith, ts))
          tallied)

  module _ (C : IsClock H) where
    open C use {now}

    pub complete-le-now :
        (path : String) (size : ℕ) (s : H.State) → now s ≤ now (complete path size s).1
    unfolding complete
    complete-le-now path size s = C.stat-le-now path s

    pub file_size-le-now : (path : String) (s : H.State) → now s ≤ now (file_size path s).1
    unfolding file_size
    file_size-le-now path s = C.stat-le-now path s

    count_files-le-now :
        (names : List String) (count total : ℕ) (s : H.State)
        → now s ≤ now (count_files names (count, total) s).1
    unfolding count_files
    count_files-le-now [] count total s = omega arith
    count_files-le-now (entry ∷ rest) count total s = ground (
      arith,
      C.lstat-le-now entry s,
      count_files-le-now rest (count + 1) (total + bytes (H.lstat entry s).0) (H.lstat entry s).1,
      count_files-le-now rest count total (H.lstat entry s).1,
    )

    pub tree_size-le-now : (path : String) (s : H.State) → now s ≤ now (tree_size path s).1
    unfolding tree_size
    tree_size-le-now path s =
        omega
          (arith, C.walk-le-now path s, count_files-le-now (H.walk path s).0 0 0 (H.walk path s).1)
