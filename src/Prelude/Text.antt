-- ===== src/Prelude/Text.antt =====
-- What the code uses of Go's `strings` and `fmt`: lower case and decimal numbers.
use Prim.Native.Nat.{ℕ, zero, suc, ◌+◌, ◌-◌, ◌*◌, ◌/◌, ◌%◌}
use Prim.Native.Char.{Char, code}
use Prim.Native.String.{String, ◌++◌, char_at}
use text.Mathlib.Text
use text.Mathlib.Text.{find?}
use text.Mathlib.TextEquality.{eq_iff}
use mathlib.Core.Path.{◌≡◌, refl, ap}
use mathlib.Core.Logic.{◌≢◌, inl, inr}
use mathlib.Core.Bool.{Bool, true, false, ◌&&◌, ◌||◌}
use mathlib.Core.Option.{Option, none, some}
use mathlib.Core.List.{List, [], ◌∷◌, map}
use expense_management.Prelude.Tests.{leb, ◌==◌, Bool-cases, if◌then◌else◌}
use expense_management.Prelude.Int.{ℤ, pos, negsuc}

abbrev pub str_eq : String → String → Bool
str_eq s t = Text.◌==◌ s t

-- Two texts that the test tells apart differ.
pub str_ne : (s t : String) → str_eq s t ≡ false → s ≢ t
str_ne s t h e = cc (h, (eq_iff s t).1 e)

-- Go's `+` on strings.
infixr 65 ◌<>◌
abbrev pub ◌<>◌ : String → String → String
s <> t = s ++ t

-- The code points of a text.
abbrev pub codes : String → List ℕ
codes String.[] = []
codes (String.◌∷◌ c s) = code c ∷ codes s

-- `unicode.IsSpace`
abbrev pub is_space : ℕ → Bool
is_space c =
    leb 9 c && leb c 13
    || c == 32
    || c == 0x85
    || c == 0xa0
    || c == 0x1680
    || leb 0x2000 c && leb c 0x200a
    || c == 0x2028
    || c == 0x2029
    || c == 0x202f
    || c == 0x205f
    || c == 0x3000

trim_left : String → String
trim_left String.[] = ""
trim_left (String.◌∷◌ c s) =
    let rest = trim_left s in if is_space (code c) then rest else String.◌∷◌ c s

trim_right : String → String
trim_right String.[] = ""
trim_right (String.◌∷◌ c s) =
    let rest = trim_right s in if str_eq rest "" && is_space (code c) then "" else String.◌∷◌ c rest

-- `strings.TrimSpace`
unfoldable pub trim_space : String → String
unfolding trim_left trim_right
trim_space s = trim_left (trim_right s)

-- `strings.Contains`
abbrev pub contains : String → String → Bool
contains s t = elim (find? s t) [ none ↦ false | some i ↦ true ]

-- What comes before the first piece goes to its front.
abbrev onto_first : Char → List String → List String
onto_first c [] = String.◌∷◌ c "" ∷ []
onto_first c (piece ∷ pieces) = String.◌∷◌ c piece ∷ pieces

-- `strings.Split` at a separator of one character.
unfoldable pub split : String → ℕ → List String
split String.[] sep = "" ∷ []
split (String.◌∷◌ c s) sep =
    let rest = split s sep in if code c == sep then "" ∷ rest else onto_first c rest

text_tests :
    (trim_space "  a b\t" ≡ "a b")
    × (contains "host=localhost" "localhost" ≡ true)
    × (contains "" "x" ≡ false)
    × (split "a,,b" 44 ≡ "a" ∷ "" ∷ "b" ∷ [])
    × (split "" 44 ≡ "" ∷ [])
unfolding trim_space split
text_tests = (refl, refl, refl, refl, refl)

-- `unicode.ToLower` wherever its result is ASCII: A to Z, U+0130 and U+212A. No other capital has
-- an ASCII lower case, so comparing with an ASCII text comes out as it does in the code.
abbrev pub lower : ℕ → ℕ
lower c =
    if leb 65 c && leb c 90
    then c + 32
    else if c == 0x130
    then 105
    else if c == 0x212a
    then 107
    else c

-- `strings.ToLower`, as code points.
abbrev pub to_lower : String → List ℕ
to_lower s = map lower (codes s)

abbrev pub codes_eq : List ℕ → List ℕ → Bool
codes_eq [] [] = true
codes_eq (a ∷ as') (b ∷ bs) = a == b && codes_eq as' bs
codes_eq _ _ = false

abbrev pub digit : ℕ → Char
digit d = char_at "0123456789" d

-- The decimal digits of a number, in front of a text. The fuel bounds their number.
digits : ℕ → ℕ → String → String
digits zero n out = out
digits (suc f) n out =
    let longer = digits f (n / 10) (String.◌∷◌ (digit (n % 10)) out) in
    if n / 10 == 0 then String.◌∷◌ (digit (n % 10)) out else longer

-- `%d`. A number has at most as many digits as it counts, and one more for 0.
unfoldable pub show : ℤ → String
unfolding digits
show (pos n) = digits (suc n) n ""
show (negsuc n) = "-" <> digits (suc (suc n)) (suc n) ""

-- `strconv.Atoi` and `strconv.ParseInt(s, 10, 64)`: a sign, then digits; `none` is an error.
scan_digits : List ℕ → ℕ → Option ℕ
scan_digits [] n = some n
scan_digits (c ∷ cs) n =
    let rest = scan_digits cs (n * 10 + (c - 48)) in if leb 48 c && leb c 57 then rest else none

unsigned : List ℕ → Option ℕ
unsigned [] = none
unsigned (c ∷ cs) = scan_digits (c ∷ cs) 0

positive : Option ℕ → Option ℤ
positive none = none
positive (some n) = if leb n 9223372036854775807 then some (pos n) else none

negative : Option ℕ → Option ℤ
negative none = none
negative (some zero) = some (pos 0)
negative (some (suc n)) = if leb (suc n) 9223372036854775808 then some (negsuc n) else none

parse_codes : List ℕ → Option ℤ
unfolding unsigned scan_digits positive negative
parse_codes [] = none
parse_codes (c ∷ cs) =
    if c == 45
    then negative (unsigned cs)
    else if c == 43
    then positive (unsigned cs)
    else positive (unsigned (c ∷ cs))

unfoldable pub parse_int : String → Option ℤ
unfolding parse_codes
parse_int s = parse_codes (codes s)

pub parse_int-ne_nil : (s : String) (a : ℤ) → parse_int s ≡ some a → str_eq s "" ≡ false
unfolding parse_int
parse_int-ne_nil s a h = elim (Bool-cases (str_eq s "")) [
  | inl same ↦ let e : parse_int s ≡ none = ap parse_int ((eq_iff s "").0 same) in cc (e, h)
  | inr other ↦ other
]

parse_int_tests :
    (parse_int "42" ≡ some (pos 42))
    × (parse_int "-7" ≡ some (negsuc 6))
    × (parse_int "+0" ≡ some (pos 0))
    × (parse_int "" ≡ none)
    × (parse_int "4x" ≡ none)
    × (parse_int "9223372036854775808" ≡ none)
unfolding parse_int
parse_int_tests = (refl, refl, refl, refl, refl, refl)

show_tests : (show (pos 0) ≡ "0") × (show (pos 50000000) ≡ "50000000") × (show (negsuc 41) ≡ "-42")
unfolding show
show_tests = (refl, refl, refl)
