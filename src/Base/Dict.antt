-- ===== src/Base/Dict.antt =====
-- Python's `dict` in insertion order.
use mathlib.Core.Path.{◌≡◌, refl}
use mathlib.Core.Bool.{true, false}
use mathlib.Core.Option.{Option, none, some}
use mathlib.Core.List.{List, [], ◌∷◌}
use native.Mathlib.Omega.{arith}
use syncfs.Base.Equality.{Eq}
use syncfs.Base.Tests.{if◌then◌else◌}

abbrev pub Dict {ℓ κ} : Type ℓ → Type κ → Type (ℓ ⊔ κ)
Dict K V = List (K × V)

abbrev pub keys {ℓ κ} : {K : Type ℓ} {V : Type κ} → Dict K V → List K
keys [] = []
keys ((k, _) ∷ d) = k ∷ keys d

module _ {ℓ κ} {K : Type ℓ} {V : Type κ} ⦃e : Eq K⦄ where
  -- `d.get(k)`
  abbrev pub get : K → Dict K V → Option V
  get k [] = none
  get k ((j, v) ∷ d) = if e.eqb j k then some v else get k d

  -- `d[k] = v`: a new key goes to the end.
  abbrev pub put : K → V → Dict K V → Dict K V
  put k v [] = (k, v) ∷ []
  put k v ((j, w) ∷ d) = if e.eqb j k then (j, v) ∷ d else (j, w) ∷ put k v d

  -- `del d[k]`
  abbrev pub remove : K → Dict K V → Dict K V
  remove k [] = []
  remove k ((j, w) ∷ d) = let rest = remove k d in if e.eqb j k then rest else (j, w) ∷ rest

  pub get-put :
      (k j : K) (v : V) (d : Dict K V) → get j (put k v d) ≡ (if e.eqb k j then some v else get j d)
  get-put k j v [] = refl
  get-put k j v ((i, w) ∷ d) =
      ground (arith, e.eqb_iff k j, e.eqb_iff i k, e.eqb_iff i j, get-put k j v d)

  pub get-remove :
      (k j : K) (d : Dict K V) → get j (remove k d) ≡ (if e.eqb k j then none else get j d)
  get-remove k j [] = ground arith
  get-remove k j ((i, w) ∷ d) =
      ground (arith, e.eqb_iff k j, e.eqb_iff i k, e.eqb_iff i j, get-remove k j d)

  module _ (k j : K) (d : Dict K V) where
    pub get-put_eq : (v : V) → e.eqb k j ≡ true → get j (put k v d) ≡ some v
    get-put_eq v h = rw (get-put, h)

    pub get-put_ne : (v : V) → e.eqb k j ≡ false → get j (put k v d) ≡ get j d
    get-put_ne v h = rw (get-put, h)

    pub get-remove_eq : e.eqb k j ≡ true → get j (remove k d) ≡ none
    get-remove_eq h = rw (get-remove, h)

    pub get-remove_ne : e.eqb k j ≡ false → get j (remove k d) ≡ get j d
    get-remove_ne h = rw (get-remove, h)

  -- The keys of a dict are distinct.
  abbrev pub NodupKeys : Dict K V → Type κ
  NodupKeys [] = Unit
  NodupKeys ((k, _) ∷ d) = (get k d ≡ none) × NodupKeys d
