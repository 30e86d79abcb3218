-- ===== src/DomainName.antt =====
-- utils/domain.go: how the name of a domain is checked and brought to its stored form. The
-- parameters are strings.TrimSpace and strings.ToLower (Unicode), idna.Lookup.ToASCII and whether
-- net.ParseIP reads an address. A text is a list of code points, and `len` counts the bytes of its
-- UTF-8; such a text is valid UTF-8, so that test has no branch here.
pub mod Labels
use Prim.Native.Nat.{ℕ, zero, suc, ◌+◌}
use Prim.Native.Char.{Char, code}
use Prim.Native.String
use Prim.Native.String.{String, [], ◌∷◌}
use certhub_server.Common.{
  Bool, true, false, ◌&&◌, ◌||◌, Option, none, some, List, length, ◌==◌, ltb, leb, if◌then◌else◌,
}
use mathlib.Core.List.{[], ◌∷◌}
use certhub_server.Common.Text.{trim_dot}
use certhub_server.Store.{Result, ok, err}

-- The bytes of a code point in UTF-8.
abbrev pub width : Char → ℕ
width c =
    if ltb (code c) 128
    then 1
    else if ltb (code c) 2048
    then 2
    else if ltb (code c) 65536
    then 3
    else 4

unfoldable pub byte_length : String → ℕ
byte_length [] = 0
byte_length (c ∷ s) = width c + byte_length s

unfoldable pub contains : (Char → Bool) → String → Bool
contains p [] = false
contains p (c ∷ s) = p c || contains p s

abbrev pub is_space : Char → Bool
is_space c = code c == b' ' || code c == 9 || code c == 13 || code c == 10

abbrev pub is_reserved : Char → Bool
is_reserved c = code c == b':' || code c == b'/' || code c == b'@'

abbrev pub is_letter_or_digit : Char → Bool
is_letter_or_digit c =
    (leb b'a' (code c) && leb (code c) b'z') || (leb b'0' (code c) && leb (code c) b'9')

push : Char → List String → List String
push c [] = (c ∷ []) ∷ []
push c (l ∷ ls) = (c ∷ l) ∷ ls

-- strings.Split(s, ".")
unfoldable pub split_dot : String → List String
unfolding push
split_dot [] = [] ∷ []
split_dot (c ∷ s) = let rest = split_dot s in if code c == b'.' then [] ∷ rest else push c rest

-- The loop of validateLabel from byte `i` of a label of `n` bytes; none is a nil error.
unfoldable pub check_letters : ℕ → ℕ → String → Option String
check_letters n i [] = none
check_letters n i (c ∷ s) =
    let rest = check_letters n (i + width c) s in
    if is_letter_or_digit c
    then rest
    else if code c == b'-'
    then (if i == 0 || suc i == n
        then some "domain labels must not start or end with hyphen"
        else rest)
    else some "domain labels may only contain letters, digits, and hyphens"

unfoldable pub validate_label : String → Option String
validate_label [] = some "domain name contains empty label"
validate_label (c ∷ s) =
    let n = byte_length (c ∷ s) in
    if ltb 63 n then some "domain label is too long" else check_letters n 0 (c ∷ s)

unfoldable pub or_next : Option String → Option String → Option String
or_next none rest = rest
or_next (some e) rest = some e

unfoldable pub validate_labels : List String → Option String
unfolding or_next
validate_labels [] = none
validate_labels (l ∷ ls) = or_next (validate_label l) (validate_labels ls)

unfoldable pub validate_domain_labels : String → Option String
validate_domain_labels domain =
    let labels = split_dot domain in
    if ltb (length labels) 2
    then some "domain must contain at least one dot (e.g. example.com)"
    else validate_labels labels

unfoldable pub result_of : String → Option String → Result String String
result_of domain none = ok domain
result_of domain (some e) = err e

module _ (trim_space to_lower : String → String) (to_ascii : String → Option String)
    (parses_ip : String → Bool) where
  unfoldable pub normalize_domain : String → String
  normalize_domain domain = trim_dot (to_lower (trim_space domain))

  unfoldable pub validate_ascii : Option String → Result String String
  unfolding result_of
  validate_ascii none = err "invalid internationalized domain name"
  validate_ascii (some ascii) =
      let domain = to_lower ascii in
      if parses_ip domain
      then err "IP addresses are not supported"
      else if ltb 253 (byte_length domain)
      then err "domain name is too long"
      else result_of domain (validate_domain_labels domain)

  unfoldable pub validate_domain_name : String → Result String String
  validate_domain_name raw =
      let domain = normalize_domain raw in
      if byte_length domain == 0
      then err "domain name is required"
      else if contains is_space domain
      then err "domain name must not contain spaces"
      else if contains (λ c. code c == b'*') domain
      then err "wildcard domains are not supported"
      else if contains is_reserved domain
      then err "invalid domain name"
      else validate_ascii (to_ascii domain)
