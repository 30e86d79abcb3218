-- ===== src/Delegation/Tracked.antt =====
-- Whether the challenge records of a target are those that services/delegation_dns.go knows of.
use certhub_server.Common.{ℕ, String, false, Option, none, some, ◌≡◌, ◌≢◌, ◌∙◌, ◌⊎◌, inl, inr}
use certhub_server.Delegation.{Cloudflare, TxtParams, Records, State, Provider, DnsEnv, tracked}

-- What is observed of the API's side: the records in the zone of the configuration, by their ids
-- and names; and whether it is intact, that is, whether every call so far that should have made a
-- record and was answered with an error has made none. A call whose context ends on the way can
-- have made its record all the same.
pub record View (cf : Cloudflare) : Type 1 where
  pub has_record : cf.Remote → String → String → Type 0
  pub is_intact : cf.Remote → Type 0

-- Documented behaviour of the API: a call that succeeds makes one record with the id that it
-- answers, or removes the one that it names; a call for another record leaves the rest; ids are not
-- empty. The three fields on `is_intact` say what it means: it is about all calls so far, and a
-- failed call that leaves it has made no record.
pub record IsZone (cf : Cloudflare) (view : View cf) (auth_zone zone : String) : Type 0 where
  pub zone_found :
      (k : ℕ) (r : cf.Remote) (z : String) → cf.zone_id_by_name k r auth_zone ≡ inr z → z ≡ zone
  pub created :
      (k : ℕ) (r r' : cf.Remote) (p : TxtParams) (id i n : String)
      → cf.create_dns_record k r zone p ≡ (inr id, r')
      → view.has_record r' i n
      → ((i ≡ id) × (n ≡ p.name)) ⊎ view.has_record r i n
  pub not_created :
      (k : ℕ) (r r' : cf.Remote) (p : TxtParams) (e i n : String)
      → cf.create_dns_record k r zone p ≡ (inl e, r')
      → view.is_intact r'
      → view.has_record r' i n
      → view.has_record r i n
  pub created_after :
      (k : ℕ) (r r' : cf.Remote) (p : TxtParams) (a : String ⊎ String)
      → cf.create_dns_record k r zone p ≡ (a, r')
      → view.is_intact r'
      → view.is_intact r
  pub deleted_after :
      (k : ℕ) (r r' : cf.Remote) (id : String) (a : Option String)
      → cf.delete_dns_record k r zone id ≡ (a, r')
      → view.is_intact r'
      → view.is_intact r
  pub deleted :
      (k : ℕ) (r r' : cf.Remote) (id i n : String)
      → cf.delete_dns_record k r zone id ≡ (none, r')
      → view.has_record r' i n
      → view.has_record r i n × (i ≢ id)
  pub not_deleted :
      (k : ℕ) (r r' : cf.Remote) (id e i n : String)
      → cf.delete_dns_record k r zone id ≡ (some e, r')
      → view.has_record r' i n
      → view.has_record r i n
  pub not_empty : (r : cf.Remote) (i n : String) → view.has_record r i n → i ≢ ""

module _ (cf : Cloudflare) (view : View cf) (zone n : String) where
  -- No warning was logged, and no failed call has made a record.
  abbrev pub IsSure : Records cf → Type 0
  IsSure r = (r.warned ≡ false) × view.is_intact r.remote

  -- If that is so, the target has no record but the given one.
  pub record Only (id : String) (r : Records cf) : Type 0 where
    pub only : IsSure r → (i : String) → view.has_record r.remote i n → i ≡ id

  pub record Clear (r : Records cf) : Type 0 where
    pub clear : IsSure r → (i : String) → view.has_record r.remote i n → ⊥

  -- The same, and the table has this id for the target.
  pub record Held (id : String) (r : Records cf) : Type 0 where
    pub known : Only id r
    pub entry : tracked n r.targets ≡ id

  -- If all is sure, the target has no record but the one in the table.
  abbrev pub IsTracked : Records cf → Type 0
  IsTracked r = Only (tracked n r.targets) r

  -- The zone that a provider has looked up is the configured one.
  abbrev pub OfZone : Provider → Type 0
  OfZone p = (z : String) → p.zone ≡ some (inr z) → z ≡ zone

  pub record On (G : Records cf → Type 0) (s : State cf) : Type 0 where
    pub shared : G s.shared
    pub provider : OfZone s.provider

  -- During a call the other jobs leave the target alone: they make no record for it, and do not
  -- write its entry, whose mutex is held. A warning stays, and so does what a failed call has made.
  pub record LeavesAlone (env : DnsEnv cf) : Type 0 where
    pub records :
        (k : ℕ) (r : Records cf) (i : String)
        → view.has_record (env.others k r).remote i n
        → view.has_record r.remote i n
    pub entries :
        (k : ℕ) (r : Records cf) → tracked n (env.others k r).targets ≡ tracked n r.targets
    pub unsure : (k : ℕ) (r : Records cf) → IsSure (env.others k r) → IsSure r

  abbrev pub IsStable : DnsEnv cf → (Records cf → Type 0) → Type 0
  IsStable env G = (k : ℕ) (r : Records cf) → G r → G (env.others k r)

  module _ (env : DnsEnv cf) (alone : LeavesAlone env) where
    pub Only-stable : (id : String) → IsStable env (Only id)
    Only-stable id k r h = record {
      only = λ w i has. h.only (alone.unsure k r w) i (alone.records k r i has);
    }

    pub Clear-stable : IsStable env Clear
    Clear-stable k r h = record {
      clear = λ w i has. h.clear (alone.unsure k r w) i (alone.records k r i has);
    }

    pub Held-stable : (id : String) → IsStable env (Held id)
    Held-stable id k r h = record {
      known = Only-stable id k r h.known;
      entry = alone.entries k r ∙ h.entry;
    }

    pub IsTracked-stable : IsStable env IsTracked
    IsTracked-stable k r h = rw (alone.entries k r) (Only-stable (tracked n r.targets) k r h)

  pub Clear-IsTracked : (r : Records cf) → Clear r → IsTracked r
  Clear-IsTracked r h = record { only = λ w i has. absurd (h.clear w i has) }

  pub Held-IsTracked : (id : String) (r : Records cf) → Held id r → IsTracked r
  Held-IsTracked id r h = rw h.entry h.known
