-- ===== src/Base/Decimal.antt =====
-- `str(n)` of a natural number, and its inverse.
use Prim.Native.Char.{Char, code}
use syncfs.Base.{
  ℕ, zero, suc, ◌+◌, ◌-◌, ◌*◌, ◌/◌, ◌%◌, ◌<◌, ◌≡◌, refl, ◌∙◌, sym, ap, String, arith, ltb,
  if◌then◌else◌, Bool-cases, inl, inr,
}

unfoldable pub digit : ℕ → Char
digit zero = "0"
digit (suc zero) = "1"
digit (suc (suc zero)) = "2"
digit (suc (suc (suc zero))) = "3"
digit (suc (suc (suc (suc zero)))) = "4"
digit (suc (suc (suc (suc (suc zero))))) = "5"
digit (suc (suc (suc (suc (suc (suc zero)))))) = "6"
digit (suc (suc (suc (suc (suc (suc (suc zero))))))) = "7"
digit (suc (suc (suc (suc (suc (suc (suc (suc zero)))))))) = "8"
digit _ = "9"

unfoldable pub show_onto : ℕ → ℕ → String → String
show_onto zero n rest = rest
show_onto (suc fuel) n rest =
    let onto = String.◌∷◌ (digit (n % 10)) rest in
    let more = show_onto fuel (n / 10) onto in if ltb n 10 then onto else more

unfoldable pub show : ℕ → String
unfolding digit show_onto
show n = show_onto (suc n) n ""

-- What digits are read as, behind those that are worth `acc`.
unfoldable pub value : ℕ → String → ℕ
value acc String.[] = acc
value acc (String.◌∷◌ c s) = value (acc * 10 + (code c - 48)) s

-- The digits stand in their order behind the character 48.
pub code-digit : (d : ℕ) → d < 10 → code (digit d) ≡ 48 + d
unfolding digit
code-digit zero h = refl
code-digit (suc zero) h = refl
code-digit (suc (suc zero)) h = refl
code-digit (suc (suc (suc zero))) h = refl
code-digit (suc (suc (suc (suc zero)))) h = refl
code-digit (suc (suc (suc (suc (suc zero))))) h = refl
code-digit (suc (suc (suc (suc (suc (suc zero)))))) h = refl
code-digit (suc (suc (suc (suc (suc (suc (suc zero))))))) h = refl
code-digit (suc (suc (suc (suc (suc (suc (suc (suc zero)))))))) h = refl
code-digit (suc (suc (suc (suc (suc (suc (suc (suc (suc zero))))))))) h = refl
code-digit (suc (suc (suc (suc (suc (suc (suc (suc (suc (suc n)))))))))) h = absurd (omega arith)

value-show_onto :
    (fuel n : ℕ) (rest : String) → n < fuel → value 0 (show_onto fuel n rest) ≡ value n rest
unfolding show_onto value
value-show_onto zero n rest h = absurd (omega arith)
value-show_onto (suc fuel) n rest h = elim (Bool-cases (ltb n 10)) [
  | inl small ↦ rw small (ap (λ m. value m rest) (ground (arith, code-digit (n % 10))))
  | inr large ↦ rw large (
      value-show_onto fuel (n / 10) _ (ground arith)
      ∙ ap (λ m. value m rest) (ground (arith, code-digit (n % 10))))
]

-- A number that is written is read back.
pub value-show : (n : ℕ) → value 0 (show n) ≡ n
unfolding show value
value-show n = value-show_onto (suc n) n "" (omega arith)

-- Different numbers are written differently.
pub show-injective : (m n : ℕ) → show m ≡ show n → m ≡ n
show-injective m n e = sym (value-show m) ∙ ap (value 0) e ∙ value-show n

show_runs : show 1048576 ≡ "1048576"
unfolding show
show_runs = refl
