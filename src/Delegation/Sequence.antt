-- ===== src/Delegation/Sequence.antt =====
-- Any sequence of calls of the providers of services/delegation_dns.go, seen from one target.
use certhub_server.Common.{
  String, false, none, some, ◌≡◌, inl, inr, arith, str_eq, eq_iff, Bool-cases,
}
use certhub_server.Delegation.{
  Cloudflare, State, DnsEnv, require_active, create_txt, delete_txt, track, current_id,
  delete_previous, replace_delegation_txt, release_delegation_txt, answer,
}
use certhub_server.Delegation.Triples.{Ensures, ensures-bind, ensures-then, ensures-weaken}
use certhub_server.Delegation.Tracked.{View, IsZone, IsTracked, LeavesAlone, IsTracked-stable}
use certhub_server.Delegation.Calls.{delete_txt-Here, create_txt-Here}
use certhub_server.Delegation.Challenge.{
  tracked-insert_other, Gone, Safe, Gone-Safe, or_warn-Here, require-Safe, replace-Safe,
  release-Safe,
}

module _ (cf : Cloudflare) (view : View cf) (zone n : String) (env : DnsEnv cf)
    (laws : IsZone cf view env.auth_zone zone) (alone : LeavesAlone cf view zone n env) where
  abbrev pub Fine : State cf → Type 0
  Fine = Safe cf view zone n env laws alone

  delete_txt-Fine : (id : String) → Ensures Fine (delete_txt cf env id) (λ u. Fine) Fine
  delete_txt-Fine id =
      delete_txt-Here cf view zone n env (IsTracked cf view zone n)
        (IsTracked-stable cf view zone n env alone) laws id (IsTracked cf view zone n)
        (λ k r after same h. record {
          only = λ w i has.
              h.only (w.0, laws.deleted_after k r.remote after id none same w.1) i
                (laws.deleted k r.remote after id i n same has).0;
        })
        (λ k e r after same h. record {
          only = λ w i has.
              h.only (w.0, laws.deleted_after k r.remote after id (some e) same w.1) i
                (laws.not_deleted k r.remote after id e i n same has);
        })

  track_other-Fine :
      (name id : String)
      → str_eq name n ≡ false
      → Ensures Fine (track cf env name id) (λ u. Fine) Fine
  unfolding track
  track_other-Fine name id other s h = record {
    shared =
        rw (tracked-insert_other name id n s.shared.targets other)
          (record { only = h.shared.only });
    provider = h.provider;
  }

  current_id-Fine : (name : String) → Ensures Fine (current_id cf env name) (λ id. Fine) Fine
  unfolding current_id
  current_id-Fine name s h = h

  create_other-Fine :
      (name content : String)
      → str_eq name n ≡ false
      → Ensures Fine (create_txt cf env name content) (λ id. Fine) Fine
  create_other-Fine name content other =
      create_txt-Here cf view zone n env (IsTracked cf view zone n)
        (IsTracked-stable cf view zone n env alone) laws name content
        (λ id. IsTracked cf view zone n)
        (λ k id r after p named' same h. record {
          only = λ w i has. elim (laws.created k r.remote after p id i n same has) [
            | inl (new, mine) ↦ absurd (ground (arith, eq_iff name n, mine, named'))
            | inr old ↦ h.only (w.0, laws.created_after k r.remote after p (inr id) same w.1) i old
          ];
        })
        (λ k e r after p same h. record {
          only = λ w i has.
              h.only (w.0, laws.created_after k r.remote after p (inl e) same w.1) i
                (laws.not_created k r.remote after p e i n same w.1 has);
        })

  previous_other-Fine :
      (name id : String)
      → str_eq name n ≡ false
      → Ensures Fine (delete_previous cf env name id) (λ u. Fine) Fine
  unfolding delete_previous answer
  previous_other-Fine name id other s h = elim (Bool-cases (str_eq id "")) [
    | inl no_id ↦ rw no_id h
    | inr some_id ↦ rw some_id (
        ensures-then Fine Fine Fine (λ u. Fine) _ _
          (ensures-weaken Fine (Gone cf view zone n env laws alone) Fine (λ u. Fine) (λ u. Fine) _
            (or_warn-Here cf view zone n env laws alone Fine (IsTracked cf view zone n)
              (IsTracked cf view zone n) _
              (λ r. record { only = λ w. let logged = w.0 in absurd (ground arith) })
              (delete_txt-Fine id))
            (λ u t k. k) (Gone-Safe cf view zone n env laws alone))
          (track_other-Fine name "" other) s h)
  ]

  pub require-Fine : Ensures Fine (require_active cf env) (λ u. Fine) Fine
  require-Fine = require-Safe cf view zone n env laws alone

  replace_other-Fine :
      (name content : String)
      → str_eq name n ≡ false
      → Ensures Fine (replace_delegation_txt cf env name content) (λ id. Fine) Fine
  unfolding replace_delegation_txt answer
  replace_other-Fine name content other =
      ensures-then Fine Fine Fine (λ id. Fine) _ _ require-Fine
        (ensures-then Fine Fine Fine (λ id. Fine) _ _ require-Fine
          (ensures-bind Fine (λ id. Fine) (λ id. Fine) Fine _ _ (current_id-Fine name)
            λ id.
              ensures-then Fine Fine Fine (λ id. Fine) _ _ (previous_other-Fine name id other)
                (ensures-then Fine Fine Fine (λ id. Fine) _ _ require-Fine
                  (ensures-bind Fine (λ id. Fine) (λ id. Fine) Fine _ _
                    (create_other-Fine name content other)
                    λ new.
                      ensures-then Fine Fine Fine (λ id. Fine) _ _ (track_other-Fine name new other)
                        (λ s h. h)))))

  pub replace-Fine :
      (name content : String)
      → Ensures Fine (replace_delegation_txt cf env name content) (λ id. Fine) Fine
  replace-Fine name content = elim (Bool-cases (str_eq name n)) [
    | inl mine ↦ rw ((eq_iff name n).0 mine) (replace-Safe cf view zone n env laws alone content)
    | inr other ↦ replace_other-Fine name content other
  ]

  release_other-Fine :
      (name id : String)
      → str_eq name n ≡ false
      → Ensures Fine (release_delegation_txt cf env name id) (λ u. Fine) Fine
  unfolding release_delegation_txt answer
  release_other-Fine name id other =
      ensures-bind Fine (λ c. Fine) (λ u. Fine) Fine _ _ (current_id-Fine name)
        λ current s h. elim (Bool-cases (str_eq current id)) [
          | inl mine ↦ rw mine (
              ensures-then Fine Fine Fine (λ u. Fine) _ _ (delete_txt-Fine id)
                (track_other-Fine name "" other) s h)
          | inr changed ↦ rw changed h
        ]

  pub release-Fine :
      (name id : String) → Ensures Fine (release_delegation_txt cf env name id) (λ u. Fine) Fine
  release-Fine name id = elim (Bool-cases (str_eq name n)) [
    | inl mine ↦ rw ((eq_iff name n).0 mine) (release-Safe cf view zone n env laws alone id)
    | inr other ↦ release_other-Fine name id other
  ]
