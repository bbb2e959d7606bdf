-- ===== src/Text/Decimal/ReadBack.antt =====
-- `int(str(n))` is `n`.
use Prim.Native.String.{[], ◌∷◌}
use mock_idp.Common.{
  ℕ, zero, suc, ◌+◌, ◌*◌, ◌-◌, ◌/◌, ◌%◌, ◌<◌, ◌≤◌, ◌≡◌, refl, true, false, String, Char, code, some,
  arith, ltb, Bool-cases, inl, inr,
}
use mock_idp.Int.{pos}
use mock_idp.Text.{
  digit_char, show_from, show, is_space, lstrip, rstrip, strip, scan_digits, parse_signed,
  parse_int,
}
use mock_idp.Text.Decimal.{
  value_from, show_value, digit_char_value, StartsWithDigit, show-StartsWithDigit,
}

abbrev IsDigit : Char → Type 0
IsDigit c = (b'0' ≤ code c) × (code c ≤ b'9')

abbrev AllDigits : String → Type 0
AllDigits [] = Unit
AllDigits (c ∷ s) = IsDigit c × AllDigits s

IsDigit-space : (c : Char) → IsDigit c → is_space c ≡ false
unfolding is_space
IsDigit-space c h = ground arith

lstrip_digits : (s : String) → AllDigits s → lstrip s ≡ s
unfolding lstrip
lstrip_digits [] h = refl
lstrip_digits (c ∷ s) (h, _) = rw (IsDigit-space c h)

rstrip_digits : (s : String) → AllDigits s → rstrip s ≡ s
unfolding rstrip
rstrip_digits [] h = refl
rstrip_digits (c ∷ []) (h, _) = rw (IsDigit-space c h)
rstrip_digits (c ∷ d ∷ s) (_, hs) = rw (rstrip_digits (d ∷ s) hs)

scan_digits_value :
    (m : ℕ) (s : String) → AllDigits s → scan_digits true m s ≡ some (value_from m s)
unfolding scan_digits value_from
scan_digits_value m [] h = refl
scan_digits_value m (c ∷ s) (h, hs) =
    ground (arith, scan_digits_value (m * 10 + (code c - b'0')) s hs)

digit_char-IsDigit : (d : ℕ) → d < 10 → IsDigit (digit_char d "0123456789")
digit_char-IsDigit d h = omega (arith, digit_char_value d h)

show_from-AllDigits : (fuel n : ℕ) (out : String) → AllDigits out → AllDigits (show_from fuel n out)
unfolding show_from
show_from-AllDigits zero n out h = h
show_from-AllDigits (suc fuel) n out h =
    let d = digit_char (n % 10) "0123456789" in
    let h' : AllDigits (d ∷ out) = (digit_char-IsDigit (n % 10) (omega arith), h) in
    elim (Bool-cases (ltb n 10)) [
      | inl last ↦ rw last h'
      | inr more ↦ rw more (show_from-AllDigits fuel (n / 10) (d ∷ out) h')
    ]

strip_digits : (s : String) → AllDigits s → strip s ≡ s
unfolding strip
strip_digits s h = rw (lstrip_digits s h) (rstrip_digits s h)

parse_signed_digits :
    (s : String) → StartsWithDigit s → AllDigits s → parse_signed s ≡ some (pos (value_from 0 s))
unfolding parse_signed scan_digits value_from
parse_signed_digits [] h hs = elim h [ ]
parse_signed_digits (c ∷ s) h (_, hs) = ground (arith, scan_digits_value (code c - b'0') s hs)

pub parse_int-show : (n : ℕ) → parse_int (show n) ≡ some (pos n)
unfolding parse_int
parse_int-show n =
    let digits : AllDigits (show n) = unfold show in show_from-AllDigits (suc n) n "" tt in
    rw (
      strip_digits (show n) digits,
      parse_signed_digits (show n) (show-StartsWithDigit n) digits,
      show_value n,
    )
