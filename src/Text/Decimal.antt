-- ===== src/Text/Decimal.antt =====
-- What `str(n)` prints reads back as `n`, and begins with a digit.
pub mod ReadBack
use Prim.Native.String.{[], ◌∷◌}
use mock_idp.Common.{
  ℕ, zero, suc, ◌+◌, ◌*◌, ◌-◌, ◌/◌, ◌%◌, ◌<◌, ◌≤◌, ◌≡◌, refl, sym, ◌∙◌, ap, Bool, true, false,
  String, Char, code, arith, ltb, if◌then◌else◌, Bool-cases, inl, inr,
}
use mock_idp.Text.{digit_char, show_from, show}

-- The number that a text of digits stands for, behind those already read.
pub value_from : ℕ → String → ℕ
value_from n [] = n
value_from n (c ∷ s) = value_from (n * 10 + (code c - b'0')) s

digit_char_value : (d : ℕ) → d < 10 → code (digit_char d "0123456789") ≡ b'0' + d
digit_char_value zero h = refl
digit_char_value (suc zero) h = refl
digit_char_value (suc (suc zero)) h = refl
digit_char_value (suc (suc (suc zero))) h = refl
digit_char_value (suc (suc (suc (suc zero)))) h = refl
digit_char_value (suc (suc (suc (suc (suc zero))))) h = refl
digit_char_value (suc (suc (suc (suc (suc (suc zero)))))) h = refl
digit_char_value (suc (suc (suc (suc (suc (suc (suc zero))))))) h = refl
digit_char_value (suc (suc (suc (suc (suc (suc (suc (suc zero)))))))) h = refl
digit_char_value (suc (suc (suc (suc (suc (suc (suc (suc (suc zero))))))))) h = refl
digit_char_value (suc (suc (suc (suc (suc (suc (suc (suc (suc (suc d)))))))))) h =
    absurd (omega arith)

value_from-digit :
    (m d : ℕ) (out : String)
    → d < 10
    → value_from m (digit_char d "0123456789" ∷ out) ≡ value_from (m * 10 + d) out
unfolding value_from
value_from-digit m d out h =
    ap (λ k. value_from (m * 10 + k) out) (omega (arith, digit_char_value d h))

-- The fuel that is left exceeds the number that is left.
show_from_value :
    (fuel n : ℕ) (out : String) → n < fuel → value_from 0 (show_from fuel n out) ≡ value_from n out
unfolding show_from
show_from_value zero n out h = elim h [ ]
show_from_value (suc fuel) n out h =
    let out' : String = digit_char (n % 10) "0123456789" ∷ out in
    elim (Bool-cases (ltb n 10)) [
      | inl last ↦ rw last (
          value_from-digit 0 (n % 10) out (omega arith) ∙ ap (λ k. value_from k out) (ground arith))
      | inr more ↦ rw more (
          show_from_value fuel (n / 10) out' (ground arith)
          ∙ value_from-digit (n / 10) (n % 10) out (omega arith)
          ∙ ap (λ k. value_from k out) (omega arith))
    ]

pub show_value : (n : ℕ) → value_from 0 (show n) ≡ n
unfolding show value_from
show_value n = show_from_value (suc n) n "" (omega arith)

pub show_injective : (m n : ℕ) → show m ≡ show n → m ≡ n
show_injective m n e = sym (show_value m) ∙ ap (value_from 0) e ∙ show_value n

-- A text whose first character is a digit.
abbrev pub StartsWithDigit : String → Type 0
StartsWithDigit [] = ⊥
StartsWithDigit (c ∷ _) = (b'0' ≤ code c) × (code c ≤ b'9')

digit_char_range :
    (d : ℕ) (out : String) → d < 10 → StartsWithDigit (digit_char d "0123456789" ∷ out)
digit_char_range d out h = omega (arith, digit_char_value d h)

show_from_starts : (fuel n : ℕ) (out : String) → n < fuel → StartsWithDigit (show_from fuel n out)
unfolding show_from
show_from_starts zero n out h = elim h [ ]
show_from_starts (suc fuel) n out h =
    let out' : String = digit_char (n % 10) "0123456789" ∷ out in
    elim (Bool-cases (ltb n 10)) [
      | inl last ↦ rw last (digit_char_range (n % 10) out (omega arith))
      | inr more ↦ rw more (show_from_starts fuel (n / 10) out' (ground arith))
    ]

pub show-StartsWithDigit : (n : ℕ) → StartsWithDigit (show n)
unfolding show
show-StartsWithDigit n = show_from_starts (suc n) n "" (omega arith)
