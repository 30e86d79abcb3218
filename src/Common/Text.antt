-- ===== src/Common/Text.antt =====
-- The functions of package strings that the program uses on whole texts.
use Prim.Native.Nat.{ℕ, zero, suc, ◌/◌, ◌%◌}
use Prim.Native.Char.{code}
use Prim.Native.String
use Prim.Native.String.{String, [], ◌∷◌}
use certhub_server.Common.Tests.{if◌then◌else◌, ◌==◌, ltb}

infixr 65 ◌+++◌
abbrev pub ◌+++◌ : String → String → String
s +++ t = String.◌++◌ s t

-- strings.TrimSuffix(s, ".")
unfoldable pub trim_dot : String → String
trim_dot [] = []
trim_dot (c ∷ []) = if code c == b'.' then [] else c ∷ []
trim_dot (c ∷ d ∷ s) = c ∷ trim_dot (d ∷ s)

-- strings.TrimSuffix(s, "/")
unfoldable pub trim_slash : String → String
trim_slash [] = []
trim_slash (c ∷ []) = if code c == b'/' then [] else c ∷ []
trim_slash (c ∷ d ∷ s) = c ∷ trim_slash (d ∷ s)

abbrev digit : ℕ → String
digit n =
    if n == 0
    then "0"
    else if n == 1
    then "1"
    else if n == 2
    then "2"
    else if n == 3
    then "3"
    else if n == 4
    then "4"
    else if n == 5
    then "5"
    else if n == 6
    then "6"
    else if n == 7
    then "7"
    else if n == 8
    then "8"
    else "9"

-- The last `fuel` decimal digits of a number.
digits_from : ℕ → ℕ → String
digits_from zero n = ""
digits_from (suc fuel) n =
    let front = digits_from fuel (n / 10) in if ltb n 10 then digit n else front +++ digit (n % 10)

-- strconv.FormatUint(n, 10): a number has at most n + 1 digits.
unfoldable pub format_uint : ℕ → String
unfolding digits_from
format_uint n = digits_from (suc n) n
