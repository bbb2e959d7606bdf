-- ===== src/Text.antt =====
-- The methods of Python's `str` and `int` that the code calls, over the characters of a text.
-- `int(s)` is modelled for ASCII digits; a text of more than 4300 digits, which Python refuses, is
-- read as any other.
pub mod Decimal
pub mod Suffix
use Prim.Native.String.{[], ◌∷◌, ◌++◌}
use mock_idp.Common.{
  ℕ, ◌+◌, ◌*◌, ◌-◌, ◌≡◌, refl, Bool, true, false, Option, none, some, ◌&&◌, ◌||◌, String, Char,
  code, ◌==◌, leb, ltb, eqb, zero, suc, ◌/◌, ◌%◌, if◌then◌else◌, List, [], ◌∷◌,
}
use mock_idp.Int.{ℤ, pos, negsuc, negate}

-- `s + t`, also between the parts of an f-string
infixr 65 ◌<>◌
abbrev pub ◌<>◌ : String → String → String
s <> t = s ++ t

-- `bool(s)`
abbrev pub is_empty : String → Bool
is_empty [] = true
is_empty (_ ∷ _) = false

-- `o or ""`
abbrev pub or_empty : Option String → String
or_empty none = ""
or_empty (some s) = s

-- a text that is present and not empty
abbrev pub truthy : Option String → Bool
truthy none = false
truthy (some []) = false
truthy (some (_ ∷ _)) = true

-- `str.isspace` of one character
unfoldable pub is_space : Char → Bool
is_space c =
    (leb 9 (code c) && leb (code c) 13)
    || (leb 28 (code c) && leb (code c) 32)
    || eqb (code c) 133
    || eqb (code c) 160
    || eqb (code c) 5760
    || (leb 8192 (code c) && leb (code c) 8202)
    || eqb (code c) 8232
    || eqb (code c) 8233
    || eqb (code c) 8239
    || eqb (code c) 8287
    || eqb (code c) 12288

unfoldable pub lstrip : String → String
unfolding is_space
lstrip [] = []
lstrip (c ∷ s) = if is_space c then lstrip s else c ∷ s

-- one character in front of a text that is already stripped on the right
abbrev rstrip_cons : Char → String → String
rstrip_cons c [] = if is_space c then [] else c ∷ []
rstrip_cons c (d ∷ s) = c ∷ d ∷ s

unfoldable pub rstrip : String → String
unfolding is_space
rstrip [] = []
rstrip (c ∷ s) = rstrip_cons c (rstrip s)

-- `s.strip()`
unfoldable pub strip : String → String
unfolding lstrip rstrip
strip s = rstrip (lstrip s)

abbrev cons_head : Char → List String → List String
cons_head c [] = (c ∷ []) ∷ []
cons_head c (s ∷ rest) = (c ∷ s) ∷ rest

-- `s.split(d)` at one character
unfoldable pub split : ℕ → String → List String
split d [] = [] ∷ []
split d (c ∷ s) = let rest = split d s in if eqb (code c) d then [] ∷ rest else cons_head c rest

abbrev under : Char → Option String → Option String
under c none = none
under c (some s) = some (c ∷ s)

-- `s[: -len(end)]` if `s.endswith(end)`
unfoldable pub strip_suffix : String → String → Option String
strip_suffix end [] = if [] == end then some [] else none
strip_suffix end (c ∷ s) =
    let rest = under c (strip_suffix end s) in if (c ∷ s) == end then some [] else rest

-- `s[len(start):]` if `s.startswith(start)`
unfoldable pub strip_prefix : String → String → Option String
strip_prefix [] s = some s
strip_prefix (c ∷ start) [] = none
strip_prefix (c ∷ start) (d ∷ s) = if eqb (code c) (code d) then strip_prefix start s else none

-- `sep.join(parts)`
unfoldable pub join : String → List String → String
join sep [] = ""
join sep (s ∷ []) = s
join sep (s ∷ t ∷ rest) = s ++ (sep ++ join sep (t ∷ rest))

-- the character that stands in the second text where `c` stands in the first
translate : String → String → Char → Char
translate [] _ c = c
translate (_ ∷ _) [] c = c
translate (a ∷ from) (b ∷ to) c = if eqb (code a) (code c) then b else translate from to c

-- `s.lower()` on ASCII letters
unfoldable pub lower : String → String
unfolding translate
lower [] = []
lower (c ∷ s) = translate "ABCDEFGHIJKLMNOPQRSTUVWXYZ" "abcdefghijklmnopqrstuvwxyz" c ∷ lower s

is_digit : Char → Bool
is_digit c = leb b'0' (code c) && leb (code c) b'9'

-- Digits with single underscores between them; the flag says that the last character was a digit.
scan_digits : Bool → ℕ → String → Option ℕ
unfolding is_digit
scan_digits after_digit n [] = if after_digit then some n else none
scan_digits after_digit n (c ∷ s) =
    let n' = if is_digit c then n * 10 + (code c - b'0') else n in
    let rest = scan_digits (is_digit c) n' s in
    if is_digit c || (after_digit && eqb (code c) b'_') then rest else none

-- `int(s)` for a text with no sign; `none` is a ValueError.
unfoldable pub parse_ℕ : String → Option ℕ
unfolding scan_digits
parse_ℕ s = scan_digits false 0 s

abbrev signed : (ℕ → ℤ) → Option ℕ → Option ℤ
signed sign none = none
signed sign (some n) = some (sign n)

parse_signed : String → Option ℤ
unfolding parse_ℕ
parse_signed [] = none
parse_signed (c ∷ s) =
    if eqb (code c) b'-'
    then signed negate (parse_ℕ s)
    else if eqb (code c) b'+'
    then signed pos (parse_ℕ s)
    else signed pos (parse_ℕ (c ∷ s))

-- `int(s)`
unfoldable pub parse_int : String → Option ℤ
unfolding parse_signed strip
parse_int s = parse_signed (strip s)

abbrev digit_char : ℕ → String → Char
digit_char n [] = "?"
digit_char zero (c ∷ _) = c
digit_char (suc n) (_ ∷ s) = digit_char n s

-- Each round divides `n` by ten; `out` holds the digits behind it.
show_from : ℕ → ℕ → String → String
show_from zero n out = out
show_from (suc fuel) n out =
    let out' : String = digit_char (n % 10) "0123456789" ∷ out in
    let rest = show_from fuel (n / 10) out' in if ltb n 10 then out' else rest

-- `str(n)`: the rounds are at most `n + 1`.
unfoldable pub show : ℕ → String
unfolding show_from
show n = show_from (suc n) n ""

text_tests :
    (split b',' "a,b,,c" ≡ "a" ∷ "b" ∷ "" ∷ "c" ∷ [])
    × (strip "  a b  " ≡ "a b")
    × (strip_suffix "/.default" "api://x/.default" ≡ some "api://x")
    × (strip_prefix "Bearer " "Bearer abc" ≡ some "abc")
    × (lower "StRict" ≡ "strict")
    × (join " " ("a" ∷ "b" ∷ []) ≡ "a b")
    × (parse_int " -1_000 " ≡ some (negsuc 999))
    × (parse_int "1__000" ≡ none)
    × (parse_int "" ≡ none)
    × (show 1050 ≡ "1050")
    × (show 0 ≡ "0")
unfolding split strip strip_suffix strip_prefix lower join parse_int show
text_tests = (refl, refl, refl, refl, refl, refl, refl, refl, refl, refl, refl)
