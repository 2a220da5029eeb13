-- ===== src/Peak/Most.antt =====
-- What `peak_peers` of tools/measure/measure_peak.py makes of the tables of a log.
use syncfs.Base.{
  ℕ, zero, suc, ◌≤◌, ◌≡◌, refl, max, ◌⊎◌, inl, inr, true, false, List, [], ◌∷◌, String, arith, All,
  Any, Bool, is_empty,
}
use Prim.Native.Char.{Char}
use syncfs.ExaConf.{after}
use syncfs.Peak.{is_found, heading, blocks, onto_first, table_sums, best_of, better, peak_peers}

max-cases : (m n : ℕ) → (max m n ≡ m) ⊎ (max m n ≡ n)
max-cases m n = ground arith

-- A measure of the tables, its greatest value over them, and the value that the loop starts with.
module _ (f : String → ℕ) where
  abbrev pub MostFrom : ℕ → ℕ → List String → Type 0
  MostFrom start most tables =
      (start ≤ most)
      × All (λ t. f t ≤ most) tables
      × ((most ≡ start) ⊎ Any (λ t. f t ≡ most) tables)

  -- No table has more than `most`, and one has as much.
  abbrev pub Most : ℕ → List String → Type 0
  Most most tables = All (λ t. f t ≤ most) tables × Any (λ t. f t ≡ most) tables

  MostFrom-cons :
      (start most : ℕ) (t : String) (tables : List String)
      → MostFrom (max start (f t)) most tables
      → MostFrom start most (t ∷ tables)
  MostFrom-cons start most t tables (le, all, inr any) =
      (ground arith, (ground arith, all), inr (inr any))
  MostFrom-cons start most t tables (le, all, inl same) = (
    ground arith,
    (ground arith, all),
    elim (max-cases start (f t)) [
      | inl old ↦ inl (omega (arith, old))
      | inr new ↦ inr (inl (omega (arith, new)))
    ],
  )

  -- A list that is not empty has a table to be the greatest, also where all are zero.
  MostFrom-Most :
      (most : ℕ) (tables : List String)
      → is_empty tables ≡ false
      → MostFrom 0 most tables
      → Most most tables
  MostFrom-Most most [] some_table h = absurd cc
  MostFrom-Most most (t ∷ tables) some_table (le, (top, all), inl same) =
      ((top, all), inl (omega (arith, top)))
  MostFrom-Most most (t ∷ tables) some_table (le, all, inr any) = (all, any)

abbrev pub peers_in : String → ℕ
peers_in t = (table_sums t).0

abbrev pub torrents_in : String → ℕ
torrents_in t = (table_sums t).1

best_of-MostFrom :
    (best : ℕ × ℕ) (tables : List String)
    → MostFrom peers_in best.0 (best_of best tables).0 tables
      × MostFrom torrents_in best.1 (best_of best tables).1 tables
unfolding best_of
best_of-MostFrom best [] = ((omega arith, tt, inl refl), (omega arith, tt, inl refl))
best_of-MostFrom (p, r) (t ∷ tables) =
    let (peers, torrents) = best_of-MostFrom (better (p, r) (table_sums t)) tables in
    (MostFrom-cons peers_in p _ t tables peers, MostFrom-cons torrents_in r _ t tables torrents)

onto_first_some : (c : Char) (ts : List String) → is_empty (onto_first c ts) ≡ false
onto_first_some c [] = refl
onto_first_some c (t ∷ ts) = refl

blocks_some : (skip : ℕ) (log : String) → is_empty (blocks skip log) ≡ false
unfolding blocks
blocks_some skip String.[] = refl
blocks_some (suc skip) (String.◌∷◌ c s) = blocks_some skip s
blocks_some zero (String.◌∷◌ c s) = go (is_found (after heading (String.◌∷◌ c s)))
  where
    go :
        (here : Bool)
        → is_empty
            (elim here [ true ↦ String.[] ∷ blocks 10 s | false ↦ onto_first c (blocks 0 s) ])
          ≡ false
    go true = refl
    go false = onto_first_some c (blocks 0 s)

-- The two numbers that are taken from a log are the greatest number of peers and the greatest number
-- of torrents of its tables: no table has more, and some table has as many. The two need not be of the
-- same table.
pub peak_peers-Most :
    (log : String)
    → Most peers_in (peak_peers log).0 (blocks 0 log)
      × Most torrents_in (peak_peers log).1 (blocks 0 log)
unfolding peak_peers
peak_peers-Most log =
    let (peers, torrents) = best_of-MostFrom (0, 0) (blocks 0 log) in
    (
      MostFrom-Most peers_in _ (blocks 0 log) (blocks_some 0 log) peers,
      MostFrom-Most torrents_in _ (blocks 0 log) (blocks_some 0 log) torrents,
    )
