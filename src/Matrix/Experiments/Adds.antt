-- ===== src/Matrix/Experiments/Adds.antt =====
-- The rows that a call of run_matrix.py (tools/measure/bucketfs) adds to the results file.
use mathlib.Core.List.{append-nil, append_assoc, map-append}
use syncfs.Base.{◌≡◌, refl, ap, ◌∙◌, sym, none, some, List, [], ◌∷◌, ◌++◌}
use syncfs.Base.Equality.{string_eq, pair_eq}
use syncfs.Base.Exec.{Result, ok, raised, Exec, continue, Runs, after_finally, ◌>>=◌}
use syncfs.Matrix.Rows.{Row, Key, row_key, Csv, append, saved, done_cells}
use syncfs.Matrix.Experiments.{Bench}

pub done_cells-append :
    (out : Csv) (row : Row) → done_cells (append out row) ≡ done_cells out ++ (row_key row ∷ [])
unfolding done_cells append
done_cells-append none row = refl
done_cells-append (some rows) row = map-append row_key rows (row ∷ [])

module _ (S : Type 0) where
  abbrev pub held : Bench S → List Key
  held b = done_cells b.out

  -- Some of the keys were added, in their order, and the rest were not.
  pub record Partway (from todo : List Key) (b : Bench S) : Type 0 where
    pub added : List Key
    pub left : List Key
    pub split : todo ≡ added ++ left
    pub is_held : done_cells b.out ≡ from ++ added

  abbrev pub Appends : {A : Type 0} → List Key → List Key → Result A × Bench S → Type 0
  Appends from todo = Runs (Partway from todo) (λ _ b. done_cells b.out ≡ from ++ todo)

  -- The call adds rows of these keys, all of them where it returns.
  abbrev pub Adds : {A : Type 0} → List Key → Exec (Bench S) A → Type 0
  Adds todo m = (b : Bench S) → Appends (held b) todo (m b)

  pub Appends-continue :
      {A C : Type 0} (from first second : List Key) (r : Result A × Bench S)
      (f : A → Exec (Bench S) C)
      → Appends from first r
      → ((a : A) → Adds second (f a))
      → Appends from (first ++ second) (continue r.0 f r.1)
  Appends-continue {C = C} from first second (raised e, b) f h k = record {
    added = h.added;
    left = h.left ++ second;
    split = ap (λ l. l ++ second) h.split ∙ append_assoc h.added h.left second;
    is_held = h.is_held;
  }
  Appends-continue {C = C} from first second (ok a, b) f h k = go (f a b) (k a b)
    where
      go : (q : Result C × Bench S) → Appends (held b) second q → Appends from (first ++ second) q
      go (ok c, b') e = e ∙ ap (λ l. l ++ second) h ∙ append_assoc from first second
      go (raised e, b') p = record {
        added = first ++ p.added;
        left = p.left;
        split = ap (λ l. first ++ l) p.split ∙ sym (append_assoc first p.added p.left);
        is_held = p.is_held ∙ ap (λ l. l ++ p.added) h ∙ append_assoc from first p.added;
      }

  pub Adds-bind :
      {A C : Type 0} (first second : List Key) (m : Exec (Bench S) A) (f : A → Exec (Bench S) C)
      → Adds first m
      → ((a : A) → Adds second (f a))
      → Adds (first ++ second) (m >>= f)
  Adds-bind first second m f h k b = Appends-continue (held b) first second (m b) f (h b) k

  pub none_added :
      {A : Type 0} (b : Bench S) (r : Result A × Bench S)
      → held r.1 ≡ held b
      → Appends (held b) [] r
  none_added b (ok a, b') e = e ∙ sym (append-nil _)
  none_added b (raised x, b') e = record {
    added = [];
    left = [];
    split = refl;
    is_held = e ∙ sym (append-nil _);
  }

  -- A row that is saved is added, and an error of the saving adds none.
  pub saved-Appends :
      (row : Row) (b : Bench S) (r : Result (Unit {0})) (s : S)
      → Appends (held b) (row_key row ∷ []) (r, record b { out = saved r b.out row; rig = s })
  saved-Appends row b (ok u) s = done_cells-append b.out row
  saved-Appends row b (raised e) s = record {
    added = [];
    left = row_key row ∷ [];
    split = refl;
    is_held = sym (append-nil _);
  }

  -- What happens in `finally` adds no row.
  pub closes :
      (from todo : List Key) (r q : Result (Unit {0}) × Bench S)
      → held q.1 ≡ held r.1
      → Appends from todo r
      → Appends from todo (after_finally r.0 q)
  closes from todo (ok u, c) (ok v, d) e k = e ∙ k
  closes from todo (ok u, c) (raised x, d) e k = record {
    added = todo;
    left = [];
    split = sym (append-nil todo);
    is_held = e ∙ k;
  }
  closes from todo (raised y, c) (ok v, d) e k = record {
    added = k.added;
    left = k.left;
    split = k.split;
    is_held = e ∙ k.is_held;
  }
  closes from todo (raised y, c) (raised x, d) e k = record {
    added = k.added;
    left = k.left;
    split = k.split;
    is_held = e ∙ k.is_held;
  }
