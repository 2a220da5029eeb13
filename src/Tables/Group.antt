-- ===== src/Tables/Group.antt =====
-- `group_by` of tools/measure/bucketfs/tex_tables.py, the same grouping of summarise.py, and the
-- tallies that count rows by a key.
use mathlib.Core.List.{append-nil, append_assoc}
use syncfs.Base.{
  ℕ, ◌+◌, ◌≡◌, refl, ap, ◌∙◌, sym, Bool, true, Option, none, some, List, [], ◌∷◌, ◌++◌, arith, keep,
  length, Bool-cases, inl, inr,
}
use syncfs.Base.Equality.{Eq}
use syncfs.Base.Dict
use syncfs.Base.Dict.{Dict}

module _ {A : Type 0} where
  abbrev pub members : Option (List A) → List A
  members none = []
  members (some rows) = rows

  -- The group as `get` shows it: there is no empty one.
  abbrev pub as_group : List A → Option (List A)
  as_group [] = none
  as_group (x ∷ xs) = some (x ∷ xs)

  members-as_group : (xs : List A) → members (as_group xs) ≡ xs
  members-as_group [] = refl
  members-as_group (x ∷ xs) = refl

  as_group-append : (xs : List A) (y : A) → as_group (xs ++ (y ∷ [])) ≡ some (xs ++ (y ∷ []))
  as_group-append [] y = refl
  as_group-append (x ∷ xs) y = refl

  keep-append : (p : A → Bool) (xs ys : List A) → keep p (xs ++ ys) ≡ keep p xs ++ keep p ys
  keep-append p [] ys = refl
  keep-append p (x ∷ xs) ys = elim (Bool-cases (p x)) [
    | inl yes' ↦ rw (yes', keep-append p xs ys)
    | inr no' ↦ rw (no', keep-append p xs ys)
  ]

abbrev pub or_zero : Option ℕ → ℕ
or_zero none = 0
or_zero (some n) = n

module _ {K : Type 0} where
  abbrev pub total : Dict K ℕ → ℕ
  total [] = 0
  total ((k, n) ∷ d) = n + total d

module _ {K : Type 0} ⦃e : Eq K⦄ where
  total-put :
      (k : K) (d : Dict K ℕ) → total (Dict.put k (or_zero (Dict.get k d) + 1) d) ≡ total d + 1
  total-put k [] = omega arith
  total-put k ((j, n) ∷ d) = ground (arith, total-put k d)

module _ {K A : Type 0} ⦃e : Eq K⦄ where
  -- `out.setdefault(key(row), []).append(row)`
  abbrev pub add_row : (A → K) → Dict K (List A) → A → Dict K (List A)
  add_row key out row = Dict.put (key row) (members (Dict.get (key row) out) ++ (row ∷ [])) out

  unfoldable pub group_onto : (A → K) → Dict K (List A) → List A → Dict K (List A)
  group_onto key out [] = out
  group_onto key out (row ∷ rows) = group_onto key (add_row key out row) rows

  unfoldable pub group_by : List A → (A → K) → Dict K (List A)
  unfolding group_onto
  group_by rows key = group_onto key [] rows

  -- The rows of one key, in their order.
  abbrev pub rows_with : (A → K) → K → List A → List A
  rows_with key k = keep (λ r. e.eqb (key r) k)

  get-add_row :
      (key : A → K) (row : A) (before : List A) (out : Dict K (List A)) (k : K)
      → Dict.get k out ≡ as_group (rows_with key k before)
      → Dict.get k (add_row key out row) ≡ as_group (rows_with key k (before ++ (row ∷ [])))
  get-add_row key row before out k h = elim (Bool-cases (e.eqb (key row) k)) [
    | inl same ↦
        Dict.get-put_eq (key row) k out _ same
        ∙ ap (λ (rows : List A). some (rows ++ (row ∷ []))) (old same)
        ∙ sym (as_group-append (rows_with key k before) row)
        ∙ ap as_group (rw (keep-append, same))
    | inr other ↦
        Dict.get-put_ne (key row) k out _ other
        ∙ h
        ∙ ap as_group (rw (keep-append, other) (sym (append-nil _)))
  ]
    where
      old : e.eqb (key row) k ≡ true → members (Dict.get (key row) out) ≡ rows_with key k before
      old same =
          ap (λ j. members (Dict.get j out)) ((e.eqb_iff (key row) k).0 same)
          ∙ ap members h
          ∙ members-as_group (rows_with key k before)

  get-group_onto :
      (key : A → K) (rows before : List A) (out : Dict K (List A)) (k : K)
      → Dict.get k out ≡ as_group (rows_with key k before)
      → Dict.get k (group_onto key out rows) ≡ as_group (rows_with key k (before ++ rows))
  unfolding group_onto
  get-group_onto key [] before out k h =
      h ∙ ap (λ l. as_group (rows_with key k l)) (sym (append-nil before))
  get-group_onto key (row ∷ rows) before out k h =
      get-group_onto key rows (before ++ (row ∷ [])) (add_row key out row) k
        (get-add_row key row before out k h)
      ∙ ap (λ l. as_group (rows_with key k l)) (append_assoc before (row ∷ []) rows)

  -- The group of a key holds exactly the rows with that key, in their order, and a key that no row
  -- has is not there.
  pub get-group_by :
      (rows : List A) (key : A → K) (k : K)
      → Dict.get k (group_by rows key) ≡ as_group (rows_with key k rows)
  unfolding group_by
  get-group_by rows key k = get-group_onto key rows [] [] k refl

  -- `tally[key] = tally.get(key, 0) + 1`
  unfoldable pub tally_onto : (A → K) → Dict K ℕ → List A → Dict K ℕ
  tally_onto key out [] = out
  tally_onto key out (row ∷ rows) =
      tally_onto key (Dict.put (key row) (or_zero (Dict.get (key row) out) + 1) out) rows

  unfoldable pub tally_by : List A → (A → K) → Dict K ℕ
  unfolding tally_onto
  tally_by rows key = tally_onto key [] rows

  total-tally_onto :
      (key : A → K) (out : Dict K ℕ) (rows : List A)
      → total (tally_onto key out rows) ≡ total out + length rows
  unfolding tally_onto
  total-tally_onto key out [] = omega arith
  total-tally_onto key out (row ∷ rows) = omega (
    arith,
    total-tally_onto key (Dict.put (key row) (or_zero (Dict.get (key row) out) + 1) out) rows,
    total-put (key row) out,
  )

  get-tally_onto :
      (key : A → K) (out : Dict K ℕ) (rows : List A) (k : K)
      → or_zero (Dict.get k (tally_onto key out rows))
        ≡ or_zero (Dict.get k out) + length (rows_with key k rows)
  unfolding tally_onto
  get-tally_onto key out [] k = omega arith
  get-tally_onto key out (row ∷ rows) k = ground (
    arith,
    get-tally_onto key (Dict.put (key row) (or_zero (Dict.get (key row) out) + 1) out) rows k,
    Dict.get-put (key row) k (or_zero (Dict.get (key row) out) + 1) out,
    e.eqb_iff (key row) k,
  )

  -- A tally holds for each key the number of the rows with that key, and its counts add up to the
  -- number of rows.
  pub tally_by_lem :
      (rows : List A) (key : A → K) (k : K)
      → (or_zero (Dict.get k (tally_by rows key)) ≡ length (rows_with key k rows))
        × (total (tally_by rows key) ≡ length rows)
  unfolding tally_by
  tally_by_lem rows key k =
      (omega (arith, get-tally_onto key [] rows k), omega (arith, total-tally_onto key [] rows))
