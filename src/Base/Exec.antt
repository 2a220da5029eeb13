-- ===== src/Base/Exec.antt =====
-- Calls that change the state of the world and may raise. What was done before a raise stays done.
use Prim.Native.String.{String}

-- The exceptions of the program: `RuntimeError` and `SystemExit` with their message, and what the
-- operating system raises.
pub data Exn : Type 0 where
  runtime_error : String → Exn
  system_exit : String → Exn
  os_error : String → Exn

pub data Result {ℓ} (A : Type ℓ) : Type ℓ where
  ok : A → Result A
  raised : Exn → Result A

abbrev pub Exec {ℓ} : Type ℓ → Type ℓ → Type ℓ
Exec S A = S → Result A × S

module _ {ℓ} {S A : Type ℓ} where
  abbrev pub pure : A → Exec S A
  pure a s = (ok a, s)

  abbrev pub raise : Exn → Exec S A
  raise e s = (raised e, s)

  -- a call that cannot raise
  abbrev pub call : (S → A × S) → Exec S A
  call f s = let (a, s') = f s in (ok a, s')

module _ {ℓ} {S A B : Type ℓ} where
  abbrev pub continue : Result A → (A → Exec S B) → Exec S B
  continue (ok a) f s = f a s
  continue (raised e) f s = (raised e, s)

  infixl 10 ◌>>=◌ ◌>>◌
  abbrev pub ◌>>=◌ : Exec S A → (A → Exec S B) → Exec S B
  ◌>>=◌ m f s = let (r, s') = m s in continue r f s'

  abbrev pub ◌>>◌ : Exec S A → Exec S B → Exec S B
  m >> n = m >>= λ _. n

-- What holds of the value and the state where a call returns.
abbrev pub Ensures {ℓ κ} : {S A : Type ℓ} → (A → S → Type κ) → Result A × S → Type κ
Ensures Q (ok a, s) = Q a s
Ensures Q (raised e, s) = Unit

pub Ensures-continue {ℓ κ} :
    {S A B : Type ℓ} (P : A → S → Type κ) (Q : B → S → Type κ) (r : Result A × S) (f : A → Exec S B)
    → Ensures P r
    → ((a : A) (s : S) → P a s → Ensures Q (f a s))
    → Ensures Q (continue r.0 f r.1)
Ensures-continue P Q (ok a, s) f h k = k a s h
Ensures-continue P Q (raised e, s) f h k = tt

pub Ensures-map {ℓ κ} :
    {S A : Type ℓ} (P Q : A → S → Type κ) (r : Result A × S)
    → ((a : A) (s : S) → P a s → Q a s)
    → Ensures P r
    → Ensures Q r
Ensures-map P Q (ok a, s) f h = f a s h
Ensures-map P Q (raised e, s) f h = tt

-- `try: m finally: k`: `k` runs either way, and an exception of its own replaces the result.
abbrev pub after_finally {ℓ} : {S A : Type ℓ} → Result A → Result (Unit {0}) × S → Result A × S
after_finally r (ok u, s) = (r, s)
after_finally r (raised e, s) = (raised e, s)

unfoldable pub finally {ℓ} :
    {S A : Type ℓ} → (S → Result A × S) → (S → Result (Unit {0}) × S) → S → Result A × S
finally m k s = let (r, s') = m s in after_finally r (k s')

-- What holds of the state where a call raises, and of the value and the state where it returns.
abbrev pub Runs {ℓ κ} : {S A : Type ℓ} → (S → Type κ) → (A → S → Type κ) → Result A × S → Type κ
Runs E Q (ok a, s) = Q a s
Runs E Q (raised e, s) = E s

module _ {ℓ κ} {S A B : Type ℓ} (E : S → Type κ) where
  pub Runs-continue :
      (P : A → S → Type κ) (Q : B → S → Type κ) (r : Result A × S) (f : A → Exec S B)
      → Runs E P r
      → ((a : A) (s : S) → P a s → Runs E Q (f a s))
      → Runs E Q (continue r.0 f r.1)
  Runs-continue P Q (ok a, s) f h k = k a s h
  Runs-continue P Q (raised e, s) f h k = h
