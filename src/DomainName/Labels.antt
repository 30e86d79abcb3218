-- ===== src/DomainName/Labels.antt =====
-- What validateLabel and ValidateDomainName accept.
use Prim.Native.Nat.{ℕ, suc, ◌+◌, ◌≤◌, ◌<◌}
use Prim.Native.Char.{Char, code}
use Prim.Native.String.{String, [], ◌∷◌}
use certhub_server.Common.{
  Bool, true, false, not, ◌&&◌, ◌||◌, Option, none, some, List, ◌≡◌, refl, ◌↔◌, arith, ◌==◌, ltb,
  length, All, is_none, if◌then◌else◌, Bool-cases, inl, inr,
}
use mathlib.Core.List.{[], ◌∷◌}
use mathlib.Core.Path.{subst}
use certhub_server.Store.{Result, ok, err}
use certhub_server.DomainName.{
  width, byte_length, contains, is_letter_or_digit, check_letters, validate_label, validate_labels,
  split_dot, validate_domain_labels, validate_ascii, result_of, or_next, normalize_domain, is_space,
  is_reserved, validate_domain_name,
}

abbrev pub is_hyphen : Char → Bool
is_hyphen c = code c == b'-'

abbrev pub is_foreign : Char → Bool
is_foreign c = not (is_letter_or_digit c || is_hyphen c)

abbrev pub starts_with_hyphen : String → Bool
starts_with_hyphen [] = false
starts_with_hyphen (c ∷ s) = is_hyphen c

abbrev pub ends_with_hyphen : String → Bool
ends_with_hyphen [] = false
ends_with_hyphen (c ∷ []) = is_hyphen c
ends_with_hyphen (c ∷ d ∷ s) = ends_with_hyphen (d ∷ s)

-- A label of a host name: 1 to 63 bytes of lower-case letters, digits and hyphens, with no hyphen
-- at either end.
pub record IsLabel (s : String) : Type 0 where
  pub not_empty : 1 ≤ byte_length s
  pub short : byte_length s ≤ 63
  pub letters : contains is_foreign s ≡ false
  pub first : starts_with_hyphen s ≡ false
  pub last : ends_with_hyphen s ≡ false

width-positive : (c : Char) → 1 ≤ width c
width-positive c = ground arith

width-hyphen : (c : Char) → is_hyphen c ≡ true → width c ≡ 1
width-hyphen c h = ground arith

hyphen-foreign : (c : Char) → is_hyphen c ≡ true → is_letter_or_digit c ≡ false
hyphen-foreign c h = ground arith

check_letters-nil : (n i : ℕ) → is_none (check_letters n i []) ≡ true
unfolding check_letters
check_letters-nil n i = refl

-- A round of the loop: the letter is allowed, and so is the rest.
check_letters-round :
    (n i : ℕ) (c : Char) (s : String)
    → is_none (check_letters n i (c ∷ s))
      ≡ (is_letter_or_digit c || (is_hyphen c && not (i == 0 || suc i == n)))
        && is_none (check_letters n (i + width c) s)
unfolding check_letters
check_letters-round n i c s = elim (Bool-cases (is_letter_or_digit c)) [
  | inl l ↦ rw l refl
  | inr l ↦ rw l (elim (Bool-cases (is_hyphen c)) [
    | inl h ↦
        rw h (elim (Bool-cases (i == 0 || suc i == n)) [ inl z ↦ rw z refl | inr z ↦ rw z refl ])
    | inr h ↦ rw h refl
  ])
]

regrouped :
    (l h foreign ends : Bool)
    → (l || (h && true)) && (not foreign && not ends) ≡ not (not (l || h) || foreign) && not ends
regrouped l h foreign ends = ground arith

-- Past its first byte, a label passes if it has only such letters and does not end in a hyphen.
check_letters-later :
    (n i : ℕ) (s : String)
    → n ≡ i + byte_length s
    → 0 < i
    → is_none (check_letters n i s) ≡ not (contains is_foreign s) && not (ends_with_hyphen s)
unfolding contains byte_length
check_letters-later n i [] e p = check_letters-nil n i
check_letters-later n i (c ∷ []) e p =
    rw (check_letters-round n i c [], check_letters-nil n (i + width c))
      (ground (arith, width-hyphen c, hyphen-foreign c))
check_letters-later n i (c ∷ d ∷ s) e p =
    let wide = width-positive d in
    let inside : (i == 0 || suc i == n) ≡ false = ground arith in
    let sum : n ≡ i + width c + byte_length (d ∷ s) = ground arith in
    let later : 0 < i + width c = ground arith in
    let rest = check_letters-later n (i + width c) (d ∷ s) sum later in
    rw (check_letters-round n i c (d ∷ s))
      (rw inside (rw rest (regrouped (is_letter_or_digit c) (is_hyphen c) _ _)))

-- The whole label: the first letter is no hyphen either.
check_letters-label :
    (c : Char) (s : String)
    → is_none (check_letters (byte_length (c ∷ s)) 0 (c ∷ s))
      ≡ not (contains is_foreign (c ∷ s)) && (not (is_hyphen c) && not (ends_with_hyphen (c ∷ s)))
unfolding contains byte_length
check_letters-label c [] =
    rw (check_letters-round (width c + 0) 0 c [], check_letters-nil (width c + 0) (0 + width c))
      (ground (arith, width-hyphen c, hyphen-foreign c))
check_letters-label c (d ∷ s) =
    let n = byte_length (c ∷ d ∷ s) in
    let later : 0 < 0 + width c = ground arith in
    let rest = check_letters-later n (0 + width c) (d ∷ s) (omega arith) later in
    rw (check_letters-round n 0 c (d ∷ s)) (rw rest (ground (arith, hyphen-foreign c)))

checked_iff :
    (n : ℕ) (o : Option String) (long : String) (foreign first last : Bool)
    → is_none o ≡ not foreign && (not first && not last)
    → 1 ≤ n
    → ((if ltb 63 n then some long else o) ≡ none)
      ↔ ((n ≤ 63) × (foreign ≡ false) × (first ≡ false) × (last ≡ false))
checked_iff n o long foreign first last e p = ground arith

byte_length-positive : (c : Char) (s : String) → 1 ≤ byte_length (c ∷ s)
unfolding byte_length
byte_length-positive c s = ground arith

no_bytes : 1 ≤ byte_length [] → ⊥
unfolding byte_length
no_bytes h = ground arith

-- validateLabel accepts exactly the labels of host names.
pub validate_label_iff : (s : String) → (validate_label s ≡ none) ↔ IsLabel s
unfolding validate_label
validate_label_iff [] = (λ e. absurd (ground arith), λ l. absurd (no_bytes l.not_empty))
validate_label_iff (c ∷ s) =
    let positive = byte_length-positive c s in
    let same =
      checked_iff (byte_length (c ∷ s)) (check_letters (byte_length (c ∷ s)) 0 (c ∷ s))
        "domain label is too long" (contains is_foreign (c ∷ s)) (is_hyphen c)
        (ends_with_hyphen (c ∷ s)) (check_letters-label c s) positive in
    (
      λ e.
          let (short, letters, first, last) = same.0 e in
          record {
            not_empty = positive;
            short = short;
            letters = letters;
            first = first;
            last = last;
          },
      λ l. same.1 (l.short, l.letters, l.first, l.last),
    )

labels_iff : (ls : List String) → (validate_labels ls ≡ none) ↔ All IsLabel ls
unfolding validate_labels or_next
labels_iff [] = (λ _. tt, λ _. refl)
labels_iff (l ∷ ls) = ground (arith, validate_label_iff l, labels_iff ls)

past :
    (b : Bool) (text : String) (r : Result String String) (name : String)
    → (if b then err text else r) ≡ ok name
    → (b ≡ false) × (r ≡ ok name)
past b text r name e = ground arith

labels_ok :
    (n : ℕ) (text : String) (o : Option String)
    → (if ltb n 2 then some text else o) ≡ none
    → (2 ≤ n) × (o ≡ none)
labels_ok n text o e = ground arith

-- A host name with at least one dot, that is no IP address and at most 253 bytes long.
pub record IsHostName (parses_ip : String → Bool) (name : String) : Type 0 where
  pub dotted : 2 ≤ length (split_dot name)
  pub labels : All IsLabel (split_dot name)
  pub short : byte_length name ≤ 253
  pub no_address : parses_ip name ≡ false

module _ (trim_space to_lower : String → String) (to_ascii : String → Option String)
    (parses_ip : String → Bool) where
  result_ok :
      (domain name : String) (o : Option String)
      → result_of domain o ≡ ok name
      → (domain ≡ name) × (o ≡ none)
  unfolding result_of
  result_ok domain name none e = (ground arith, refl)
  result_ok domain name (some t) e = absurd (ground arith)

  ascii_ok :
      (o : Option String) (name : String)
      → validate_ascii trim_space to_lower to_ascii parses_ip o ≡ ok name
      → IsHostName parses_ip name
  unfolding validate_ascii validate_domain_labels
  ascii_ok none name e = absurd (ground arith)
  ascii_ok (some ascii) name e =
      let domain = to_lower ascii in
      let (no_ip, e1) = past (parses_ip domain) _ _ name e in
      let (not_long, e2) = past (ltb 253 (byte_length domain)) _ _ name e1 in
      let (same, e3) = result_ok domain name (validate_domain_labels domain) e2 in
      subst (IsHostName parses_ip) same (host domain no_ip not_long e3)
    where
      host :
          (domain : String)
          → parses_ip domain ≡ false
          → ltb 253 (byte_length domain) ≡ false
          → validate_domain_labels domain ≡ none
          → IsHostName parses_ip domain
      host domain no_ip not_long ok_labels =
          let (dotted, labels) = labels_ok (length (split_dot domain)) _ _ ok_labels in
          record {
            dotted = dotted;
            labels = (labels_iff (split_dot domain)).0 labels;
            short = ground arith;
            no_address = no_ip;
          }

  -- A name that ValidateDomainName returns is a host name with a dot in it, and no IP address.
  pub validate_domain_name-IsHostName :
      (raw name : String)
      → validate_domain_name trim_space to_lower to_ascii parses_ip raw ≡ ok name
      → IsHostName parses_ip name
  unfolding validate_domain_name
  validate_domain_name-IsHostName raw name e =
      let domain = normalize_domain trim_space to_lower to_ascii parses_ip raw in
      let (p1, e1) = past (byte_length domain == 0) _ _ name e in
      let (p2, e2) = past (contains is_space domain) _ _ name e1 in
      let (p3, e3) = past (contains (λ c. code c == b'*') domain) _ _ name e2 in
      let (p4, e4) = past (contains is_reserved domain) _ _ name e3 in
      ascii_ok (to_ascii domain) name e4
