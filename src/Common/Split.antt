-- ===== src/Common/Split.antt =====
-- `strings.Split` at one character, `strings.TrimSpace`, and decimal digits.
use Prim.Native.Nat.{ℕ, ◌+◌, ◌*◌, ◌-◌}
use Prim.Native.Char.{Char, code}
use Prim.Native.String.{String}
use mathlib.Core.Bool.{Bool, true, false, ◌&&◌, ◌||◌}
use mathlib.Core.Option.{Option, none, some}
use mathlib.Core.List.{List, [], ◌∷◌}
use focus_flow.Common.Tests.{leb, ◌==◌, if◌then◌else◌}

abbrev pub is_empty : String → Bool
is_empty String.[] = true
is_empty (String.◌∷◌ c s) = false

abbrev pub extend_first : Char → List String → List String
extend_first c [] = String.◌∷◌ c String.[] ∷ []
extend_first c (part ∷ parts) = String.◌∷◌ c part ∷ parts

-- `strings.Split(s, sep)`, the separator by its code.
abbrev pub split : ℕ → String → List String
split sep String.[] = String.[] ∷ []
split sep (String.◌∷◌ c s) =
    let rest = split sep s in if code c == sep then String.[] ∷ rest else extend_first c rest

-- `unicode.IsSpace`
abbrev pub is_space : Char → Bool
is_space c =
    let n = code c in
    (leb 9 n && leb n 13)
    || ((n == 32) || (n == 0x85) || (n == 0xa0) || (n == 0x1680))
    || (leb 0x2000 n && leb n 0x200a)
    || ((n == 0x2028) || (n == 0x2029) || (n == 0x202f) || (n == 0x205f) || (n == 0x3000))

abbrev pub trim_left : String → String
trim_left String.[] = String.[]
trim_left (String.◌∷◌ c s) = let rest = trim_left s in if is_space c then rest else String.◌∷◌ c s

abbrev pub trim_right : String → String
trim_right String.[] = String.[]
trim_right (String.◌∷◌ c s) =
    let rest = trim_right s in if is_space c && is_empty rest then String.[] else String.◌∷◌ c rest

-- `strings.TrimSpace`
abbrev pub trim_space : String → String
trim_space s = trim_left (trim_right s)

-- The value of decimal digits, behind what was read so far.
abbrev pub digits : ℕ → String → Option ℕ
digits n String.[] = some n
digits n (String.◌∷◌ c s) =
    let rest = digits (n * 10 + (code c - 48)) s in
    if leb 48 (code c) && leb (code c) 57 then rest else none

-- At least one digit.
abbrev pub number : String → Option ℕ
number String.[] = none
number (String.◌∷◌ c s) = digits 0 (String.◌∷◌ c s)
