-- ===== src/Examples/ToyDns.antt =====
-- An API of DNS records for the tests, where an answer can come too late.
use certhub_server.Common.{
  String, true, false, if◌then◌else◌, Option, none, some, List, [], ◌∷◌, ◌≡◌, ◌≢◌, sym, ap, ◌∙◌,
  Bool, arith, ◌⊎◌, inl, inr, str_eq, Bool-cases,
}
use mathlib.Core.Path.{subst}
use certhub_server.Delegation.{Cloudflare, TxtParams}
use certhub_server.Delegation.Tracked.{View, IsZone}

-- The names of the records, whose id is always "r", and whether no failed call has made one.
abbrev pub Toy : Type 0
Toy = List String × Bool

abbrev pub removed : Toy → String → Option String × Toy
removed r id = if str_eq id "r" then (none, ([], r.1)) else (some "not found", r)

-- An answer that comes too late is an error, although the record is made.
abbrev pub created_as : TxtParams → Toy → (String ⊎ String) × Toy
created_as p r =
    if str_eq p.content "late"
    then (inl "context deadline exceeded", (p.name ∷ r.0, false))
    else (inr "r", (p.name ∷ r.0, r.1))

abbrev pub toy_dns : Cloudflare
toy_dns = record {
  Remote = Toy;
  zone_id_by_name = λ k r z. inr "z";
  create_dns_record = λ k r z p. created_as p r;
  delete_dns_record = λ k r z id. removed r id;
}

unfoldable pub Has : List String → String → String → Type 0
Has [] i n = ⊥
Has (m ∷ names) i n = ((i ≡ "r") × (n ≡ m)) ⊎ Has names i n

Has-id : (names : List String) (i n : String) → Has names i n → i ≡ "r"
unfolding Has
Has-id [] i n h = absurd h
Has-id (m ∷ names) i n (inl (same, name)) = same
Has-id (m ∷ names) i n (inr h) = Has-id names i n h

made_as :
    (p : TxtParams) (r r' : Toy) (id : String)
    → created_as p r ≡ (inr id, r')
    → ("r" ≡ id) × ((p.name ∷ r.0, r.1) ≡ r')
made_as p r r' id e = elim (Bool-cases (str_eq p.content "late")) [
  | inl late ↦
      let lost : ◌≡◌ {A = (String ⊎ String) × Toy}
          (inl "context deadline exceeded", (p.name ∷ r.0, false)) (inr id, r') =
        ground arith in
      absurd (cc)
  | inr timely ↦
      let made : ◌≡◌ {A = (String ⊎ String) × Toy} (inr "r", (p.name ∷ r.0, r.1)) (inr id, r') =
        ground arith in
      (cc, cc)
]

-- After any answer: what was lost before still is, and a failed call has lost something.
intact_after :
    (p : TxtParams) (r r' : Toy) (a : String ⊎ String)
    → created_as p r ≡ (a, r')
    → r'.1 ≡ true
    → (r.1 ≡ true) × (a ≡ inr "r")
intact_after p r r' a e w = elim (Bool-cases (str_eq p.content "late")) [
  | inl late ↦
      let lost : ◌≡◌ {A = (String ⊎ String) × Toy}
          (inl "context deadline exceeded", (p.name ∷ r.0, false)) (a, r') =
        ground arith in
      let gone : false ≡ true = ap (λ x. x.1.1) lost ∙ w in absurd (cc)
  | inr timely ↦
      let made : ◌≡◌ {A = (String ⊎ String) × Toy} (inr "r", (p.name ∷ r.0, r.1)) (a, r') =
        ground arith in
      (ap (λ x. x.1.1) made ∙ w, sym (ap (λ x. x.0) made))
]

added-Has :
    (p : TxtParams) (r r' : Toy) (id i n : String)
    → created_as p r ≡ (inr id, r')
    → Has r'.0 i n
    → ((i ≡ id) × (n ≡ p.name)) ⊎ Has r.0 i n
unfolding Has
added-Has p r r' id i n e h =
    let (same, there) = made_as p r r' id e in
    let list : p.name ∷ r.0 ≡ r'.0 = ap (λ x. x.0) there in
    renamed same (subst (λ l. Has l i n) (sym list) h)
  where
    renamed :
        "r" ≡ id
        → ((i ≡ "r") × (n ≡ p.name)) ⊎ Has r.0 i n
        → ((i ≡ id) × (n ≡ p.name)) ⊎ Has r.0 i n
    renamed same (inl (here', name)) = inl (here' ∙ same, name)
    renamed same (inr there) = inr there

removed-Has :
    (r r' : Toy) (id i n : String)
    → removed r id ≡ (none, r')
    → Has r'.0 i n
    → Has r.0 i n × (i ≢ id)
unfolding Has
removed-Has r r' id i n e h = elim (Bool-cases (str_eq id "r")) [
  | inl same ↦
      let gone : ◌≡◌ {A = Option String × Toy} (none, ([], r.1)) (none, r') = ground arith in
      absurd (subst (λ l. Has l i n) (sym (ap (λ x. x.1.0) gone)) h)
  | inr other ↦ absurd (ground arith)
]

kept-Has :
    (r r' : Toy) (id e i n : String) → removed r id ≡ (some e, r') → Has r'.0 i n → Has r.0 i n
kept-Has r r' id e i n eq h = elim (Bool-cases (str_eq id "r")) [
  | inl same ↦ absurd (ground arith)
  | inr other ↦
      let kept : ◌≡◌ {A = Option String × Toy} (some "not found", r) (some e, r') = ground arith in
      subst (λ l. Has l i n) (sym (ap (λ x. x.1.0) kept)) h
]

removed-intact :
    (r r' : Toy) (id : String) (a : Option String)
    → removed r id ≡ (a, r')
    → r'.1 ≡ true
    → r.1 ≡ true
removed-intact r r' id a e w = elim (Bool-cases (str_eq id "r")) [
  | inl same ↦
      let gone : ◌≡◌ {A = Option String × Toy} (none, ([], r.1)) (a, r') = ground arith in
      ap (λ x. x.1.1) gone ∙ w
  | inr other ↦
      let kept : ◌≡◌ {A = Option String × Toy} (some "not found", r) (a, r') = ground arith in
      ap (λ x. x.1.1) kept ∙ w
]

r_not_empty : (s : String) → s ≡ "r" → s ≢ ""
r_not_empty s e empty = cc

abbrev pub toy_view : View toy_dns
toy_view = record { has_record = λ r i n. Has r.0 i n; is_intact = λ r. r.1 ≡ true }

pub toy-IsZone : IsZone toy_dns toy_view "auth.example" "z"
toy-IsZone = record {
  zone_found = λ k r z e. cc;
  created = λ k r r' p id i n e h. added-Has p r r' id i n e h;
  not_created =
      λ k r r' p e i n eq w h. let answered = (intact_after p r r' (inl e) eq w).1 in absurd (cc);
  created_after = λ k r r' p a e w. (intact_after p r r' a e w).0;
  deleted_after = λ k r r' id a e w. removed-intact r r' id a e w;
  deleted = λ k r r' id i n e h. removed-Has r r' id i n e h;
  not_deleted = λ k r r' id e i n eq h. kept-Has r r' id e i n eq h;
  not_empty = λ r i n h empty. r_not_empty i (Has-id r.0 i n h) empty;
}
