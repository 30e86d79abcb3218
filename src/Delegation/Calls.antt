-- ===== src/Delegation/Calls.antt =====
-- What each call of services/delegation_dns.go leaves of the records of one target.
use certhub_server.Common.{
  ℕ, String, Option, none, some, ◌≡◌, refl, ◌⊎◌, inl, inr, arith, Bool-cases,
}
use certhub_server.Acme.{Liveness, live, context_ended, superseded, require_acme_active}
use certhub_server.Delegation.{
  Cloudflare, TxtParams, Records, State, DnsEnv, seen, at_event, check_context, require_active,
  get_zone_id, zone_id_from, create_record, delete_record, create_txt, delete_txt, ended_as, named,
  or_text, cloudflare_min_ttl,
}
use certhub_server.Delegation.Triples.{After, Ensures, ensures-bind, ensures-then, ensures-wrap}
use certhub_server.Delegation.Tracked.{View, IsZone, On, IsStable}

module _ (cf : Cloudflare) (view : View cf) (zone n : String) (env : DnsEnv cf) where
  abbrev pub Here : (Records cf → Type 0) → State cf → Type 0
  Here G = On cf view zone n G

  -- An event that changes nothing of its own.
  module _ (G : Records cf → Type 0) (stable : IsStable cf view zone n env G) where
    pub at-Here : (s : State cf) → Here G s → Here G (at_event cf env (seen cf env s) s)
    at-Here s h = record { shared = stable s.event s.shared h.shared; provider = h.provider }

    pub check-Here : Ensures (Here G) (check_context cf env) (λ u. Here G) (Here G)
    unfolding check_context
    check-Here s h = elim (Bool-cases (env.ended s.event)) [
      | inl over ↦ rw over (at-Here s h)
      | inr going ↦ rw going (at-Here s h)
    ]

    pub require-Here : Ensures (Here G) (require_active cf env) (λ u. Here G) (Here G)
    unfolding require_active
    require-Here s h = go (require_acme_active (env.ended s.event) (env.scope s.event))
      where
        go :
            (l : Liveness)
            → After (λ u. Here G) (Here G) (ended_as l, at_event cf env (seen cf env s) s)
        go live = at-Here s h
        go context_ended = at-Here s h
        go superseded = at-Here s h

    module _ (laws : IsZone cf view env.auth_zone zone) where
      pub zone-Here : Ensures (Here G) (get_zone_id cf env) (λ z s. (z ≡ zone) × Here G s) (Here G)
      unfolding get_zone_id zone_id_from
      zone-Here s h = go s.provider.zone h.provider
        where
          looked :
              (found : String ⊎ String)
              → cf.zone_id_by_name s.event (seen cf env s).remote env.auth_zone ≡ found
              → After
                  (λ z t. (z ≡ zone) × Here G t)
                  (Here G)
                  (
                    named found,
                    record (at_event cf env (seen cf env s) s) {
                      provider = record (s.provider) { zone = some found };
                    },
                  )
          looked (inl e) same = record {
            shared = stable s.event s.shared h.shared;
            provider = λ z k. absurd (ground arith);
          }
          looked (inr z) same =
              let right = laws.zone_found s.event (seen cf env s).remote z same in
              (
                right,
                record {
                  shared = stable s.event s.shared h.shared;
                  provider = λ y k. ground (arith, right);
                },
              )

          go :
              (known : Option (String ⊎ String))
              → ((z : String) → known ≡ some (inr z) → z ≡ zone)
              → After (λ z t. (z ≡ zone) × Here G t) (Here G) (zone_id_from cf env known s)
          go none right =
              looked (cf.zone_id_by_name s.event (seen cf env s).remote env.auth_zone) refl
          go (some (inl e)) right = h
          go (some (inr z)) right = (right z refl, h)

      -- A record is made, or not.
      pub create-Here :
          (z : String) (p : TxtParams) (Q : String → Records cf → Type 0) (R : Records cf → Type 0)
          → ((k : ℕ) (id : String) (r : Records cf) (after : cf.Remote)
              → cf.create_dns_record k r.remote zone p ≡ (inr id, after)
              → G r
              → Q id (record r { remote = after }))
          → ((k : ℕ) (e : String) (r : Records cf) (after : cf.Remote)
              → cf.create_dns_record k r.remote zone p ≡ (inl e, after)
              → G r
              → R (record r { remote = after }))
          → Ensures
              (λ s. (z ≡ zone) × Here G s)
              (create_record cf env z p)
              (λ id. Here (Q id))
              (Here R)
      unfolding create_record
      create-Here z p Q R made refused s (same, h) =
          rw same (go (cf.create_dns_record s.event (seen cf env s).remote zone p) refl)
        where
          go :
              (a : (String ⊎ String) × cf.Remote)
              → cf.create_dns_record s.event (seen cf env s).remote zone p ≡ a
              → After
                  (λ id. Here (Q id))
                  (Here R)
                  (named a.0, at_event cf env (record (seen cf env s) { remote = a.1 }) s)
          go (inl e, after) same' = record {
            shared =
                refused s.event e (seen cf env s) after same' (stable s.event s.shared h.shared);
            provider = h.provider;
          }
          go (inr id, after) same' = record {
            shared = made s.event id (seen cf env s) after same' (stable s.event s.shared h.shared);
            provider = h.provider;
          }

      -- A record is removed, or not.
      pub delete-Here :
          (z id : String) (Q R : Records cf → Type 0)
          → ((k : ℕ) (r : Records cf) (after : cf.Remote)
              → cf.delete_dns_record k r.remote zone id ≡ (none, after)
              → G r
              → Q (record r { remote = after }))
          → ((k : ℕ) (e : String) (r : Records cf) (after : cf.Remote)
              → cf.delete_dns_record k r.remote zone id ≡ (some e, after)
              → G r
              → R (record r { remote = after }))
          → Ensures (λ s. (z ≡ zone) × Here G s) (delete_record cf env z id) (λ u. Here Q) (Here R)
      unfolding delete_record
      delete-Here z id Q R gone refused s (same, h) =
          rw same (go (cf.delete_dns_record s.event (seen cf env s).remote zone id) refl)
        where
          go :
              (a : Option String × cf.Remote)
              → cf.delete_dns_record s.event (seen cf env s).remote zone id ≡ a
              → After
                  (λ u. Here Q)
                  (Here R)
                  (or_text a.0, at_event cf env (record (seen cf env s) { remote = a.1 }) s)
          go (none, after) same' = record {
            shared = gone s.event (seen cf env s) after same' (stable s.event s.shared h.shared);
            provider = h.provider;
          }
          go (some e, after) same' = record {
            shared =
                refused s.event e (seen cf env s) after same' (stable s.event s.shared h.shared);
            provider = h.provider;
          }

      pub delete_txt-Here :
          (id : String) (Q : Records cf → Type 0)
          → ((k : ℕ) (r : Records cf) (after : cf.Remote)
              → cf.delete_dns_record k r.remote zone id ≡ (none, after)
              → G r
              → Q (record r { remote = after }))
          → ((k : ℕ) (e : String) (r : Records cf) (after : cf.Remote)
              → cf.delete_dns_record k r.remote zone id ≡ (some e, after)
              → G r
              → G (record r { remote = after }))
          → Ensures (Here G) (delete_txt cf env id) (λ u. Here Q) (Here G)
      unfolding delete_txt
      delete_txt-Here id Q gone refused =
          ensures-then (Here G) (Here G) (Here G) (λ u. Here Q) _ _ check-Here
            (ensures-bind (Here G) (λ z s. (z ≡ zone) × Here G s) (λ u. Here Q) (Here G) _ _
              zone-Here (λ z. delete-Here z id Q G gone refused))

      pub create_txt-Here :
          (name content : String) (Q : String → Records cf → Type 0)
          → ((k : ℕ) (id : String) (r : Records cf) (after : cf.Remote) (p : TxtParams)
              → p.name ≡ name
              → cf.create_dns_record k r.remote zone p ≡ (inr id, after)
              → G r
              → Q id (record r { remote = after }))
          → ((k : ℕ) (e : String) (r : Records cf) (after : cf.Remote) (p : TxtParams)
              → cf.create_dns_record k r.remote zone p ≡ (inl e, after)
              → G r
              → G (record r { remote = after }))
          → Ensures (Here G) (create_txt cf env name content) (λ id. Here (Q id)) (Here G)
      unfolding create_txt
      create_txt-Here name content Q made refused =
          let p : TxtParams = record { name = name; content = content; ttl = cloudflare_min_ttl } in
          ensures-then (Here G) (Here G) (Here G) (λ id. Here (Q id)) _ _ check-Here
            (ensures-bind (Here G) (λ z s. (z ≡ zone) × Here G s) (λ id. Here (Q id)) (Here G) _ _
              (ensures-wrap cf env (Here G) (Here G) (λ z s. (z ≡ zone) × Here G s) _ _ zone-Here)
              (λ z.
                ensures-wrap cf env (λ s. (z ≡ zone) × Here G s) (Here G) (λ id. Here (Q id)) _ _
                  (create-Here z p Q G (λ k id r after. made k id r after p refl)
                    (λ k e r after. refused k e r after p))))
