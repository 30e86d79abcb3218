-- ===== src/Delegation/Challenge.antt =====
-- The challenge record of a target over the calls of services/delegation_dns.go.
use certhub_server.Common.{
  String, true, false, none, some, ◌≡◌, refl, ◌∙◌, inl, inr, arith, str_eq, eq_iff, eq_refl,
  Bool-cases,
}
use certhub_server.Common.Dict.{Dict, insert, lookup-insert}
use certhub_server.Store.{Result, ok, err}
use certhub_server.Delegation.{
  Cloudflare, Records, State, DnsEnv, DnsError, Call, require_active, create_txt, delete_txt, track,
  tracked, current_id, or_warn, warned_of, delete_previous, replace_delegation_txt,
  release_delegation_txt, answer,
}
use certhub_server.Delegation.Triples.{After, Ensures, ensures-bind, ensures-then, ensures-weaken}
use certhub_server.Delegation.Tracked.{
  View, IsZone, Only, Clear, Held, IsTracked, LeavesAlone, Clear-stable, Held-stable,
  IsTracked-stable, Clear-IsTracked, Held-IsTracked,
}
use certhub_server.Delegation.Calls.{Here, require-Here, delete_txt-Here, create_txt-Here}

tracked-insert : (k id n : String) (t : Dict) → str_eq k n ≡ true → tracked n (insert k id t) ≡ id
unfolding tracked
tracked-insert k id n t h = rw (lookup-insert k n id t) (rw h refl)

pub tracked-insert_other :
    (k id n : String) (t : Dict) → str_eq k n ≡ false → tracked n (insert k id t) ≡ tracked n t
unfolding tracked
tracked-insert_other k id n t h = rw (lookup-insert k n id t) (rw h refl)

module _ (cf : Cloudflare) (view : View cf) (zone n : String) (env : DnsEnv cf)
    (laws : IsZone cf view env.auth_zone zone) (alone : LeavesAlone cf view zone n env) where
  -- The four states of the target's record.
  abbrev pub Gone : State cf → Type 0
  Gone = Here cf view zone n env (Clear cf view zone n)

  abbrev One : String → State cf → Type 0
  One id = Here cf view zone n env (Only cf view zone n id)

  abbrev Known : String → State cf → Type 0
  Known id = Here cf view zone n env (Held cf view zone n id)

  abbrev pub Safe : State cf → Type 0
  Safe = Here cf view zone n env (IsTracked cf view zone n)

  pub Gone-Safe : (s : State cf) → Gone s → Safe s
  Gone-Safe s h = record {
    shared = Clear-IsTracked cf view zone n s.shared h.shared;
    provider = h.provider;
  }

  Known-Safe : (id : String) (s : State cf) → Known id s → Safe s
  Known-Safe id s h = record {
    shared = Held-IsTracked cf view zone n id s.shared h.shared;
    provider = h.provider;
  }

  track-One : (id : String) → Ensures (One id) (track cf env n id) (λ u. Safe) Safe
  unfolding track
  track-One id s h = record {
    shared =
        rw (tracked-insert n id n s.shared.targets (eq_refl n)) (record { only = h.shared.only });
    provider = h.provider;
  }

  track-Gone : (id : String) → Ensures Gone (track cf env n id) (λ u. Gone) Gone
  unfolding track
  track-Gone id s h = record { shared = record { clear = h.shared.clear }; provider = h.provider }

  -- A failure leaves a warning, and then nothing is sure.
  pub or_warn-Here :
      (P : State cf → Type 0) (Q R : Records cf → Type 0) (m : Call cf (Unit {0}))
      → ((r : Records cf) → Q (record r { warned = true }))
      → Ensures P m (λ u. Here cf view zone n env Q) (Here cf view zone n env R)
      → Ensures P (or_warn cf env m) (λ u. Here cf view zone n env Q) Gone
  unfolding or_warn warned_of
  or_warn-Here P Q R m warns h s k = go (m s) (h s k)
    where
      go :
          (r : Result DnsError (Unit {0}) × State cf)
          → After (λ u. Here cf view zone n env Q) (Here cf view zone n env R) r
          → After (λ u. Here cf view zone n env Q) Gone (warned_of cf env r)
      go (ok u, t) g = g
      go (err e, t) g = record { shared = warns t.shared; provider = g.provider }

  delete_txt-Known :
      (id : String) → Ensures (Known id) (delete_txt cf env id) (λ u. Gone) (Known id)
  delete_txt-Known id =
      delete_txt-Here cf view zone n env (Held cf view zone n id)
        (Held-stable cf view zone n env alone id) laws id (Clear cf view zone n)
        (λ k r after same h. record {
          clear = λ w i has.
              let (was, differs) = laws.deleted k r.remote after id i n same has in
              differs
                (h.known.only (w.0, laws.deleted_after k r.remote after id none same w.1) i was);
        })
        (λ k e r after same h. record {
          known = record {
            only = λ w i has.
                h.known.only (w.0, laws.deleted_after k r.remote after id (some e) same w.1) i
                  (laws.not_deleted k r.remote after id e i n same has);
          };
          entry = h.entry;
        })

  delete_previous-Gone :
      (id : String) → Ensures (Known id) (delete_previous cf env n id) (λ u. Gone) Gone
  unfolding delete_previous answer
  delete_previous-Gone id s h = elim (Bool-cases (str_eq id "")) [
    | inl no_id ↦ rw no_id (record {
      shared = record {
        clear = λ w i has.
            laws.not_empty s.shared.remote i n has
              (h.shared.known.only w i has ∙ (eq_iff id "").0 no_id);
      };
      provider = h.provider;
    })
    | inr some_id ↦ rw some_id (
        ensures-then (Known id) Gone Gone (λ u. Gone) _ _
          (or_warn-Here (Known id) (Clear cf view zone n) (Held cf view zone n id) _
            (λ r. record { clear = λ w. let logged = w.0 in absurd (ground arith) })
            (delete_txt-Known id))
          (track-Gone "") s h)
  ]

  pub require-Safe : Ensures Safe (require_active cf env) (λ u. Safe) Safe
  require-Safe =
      require-Here cf view zone n env (IsTracked cf view zone n)
        (IsTracked-stable cf view zone n env alone)

  require-Gone : Ensures Gone (require_active cf env) (λ u. Gone) Safe
  require-Gone =
      ensures-weaken Gone Gone Safe (λ u. Gone) (λ u. Gone) _
        (require-Here cf view zone n env (Clear cf view zone n)
          (Clear-stable cf view zone n env alone))
        (λ u s h. h) Gone-Safe

  create_txt-One :
      (content : String) → Ensures Gone (create_txt cf env n content) (λ id. One id) Safe
  create_txt-One content =
      ensures-weaken Gone Gone Safe One One _
        (create_txt-Here cf view zone n env (Clear cf view zone n)
          (Clear-stable cf view zone n env alone) laws n content (Only cf view zone n)
          (λ k id r after p named' same h. record {
            only = λ w i has. elim (laws.created k r.remote after p id i n same has) [
              | inl (new, _) ↦ new
              | inr old ↦
                  absurd
                    (h.clear (w.0, laws.created_after k r.remote after p (inr id) same w.1) i old)
            ];
          })
          (λ k e r after p same h. record {
            clear = λ w i has.
                h.clear (w.0, laws.created_after k r.remote after p (inl e) same w.1) i
                  (laws.not_created k r.remote after p e i n same w.1 has);
          }))
        (λ id s h. h) Gone-Safe

  current_id-Known : Ensures Safe (current_id cf env n) (λ id. Known id) Safe
  unfolding current_id
  current_id-Known s h = record {
    shared = record { known = h.shared; entry = refl };
    provider = h.provider;
  }

  pub replace-Safe :
      (content : String) → Ensures Safe (replace_delegation_txt cf env n content) (λ id. Safe) Safe
  unfolding replace_delegation_txt answer
  replace-Safe content =
      ensures-then Safe Safe Safe (λ id. Safe) _ _ require-Safe
        (ensures-then Safe Safe Safe (λ id. Safe) _ _ require-Safe
          (ensures-bind Safe Known (λ id. Safe) Safe _ _ current_id-Known
            λ id.
              ensures-then (Known id) Gone Safe (λ id. Safe) _ _
                (ensures-weaken (Known id) Gone Safe (λ u. Gone) (λ u. Gone) _
                  (delete_previous-Gone id) (λ u s h. h) Gone-Safe)
                (ensures-then Gone Gone Safe (λ id. Safe) _ _ require-Gone
                  (ensures-bind Gone One (λ id. Safe) Safe _ _ (create_txt-One content)
                    λ new.
                      ensures-then (One new) Safe Safe (λ id. Safe) _ _ (track-One new)
                        (λ s h. h)))))

  pub release-Safe :
      (id : String) → Ensures Safe (release_delegation_txt cf env n id) (λ u. Safe) Safe
  unfolding release_delegation_txt answer
  release-Safe id =
      ensures-bind Safe Known (λ u. Safe) Safe _ _ current_id-Known
        λ current s h. elim (Bool-cases (str_eq current id)) [
          | inl mine ↦ rw mine (
              ensures-then (Known current) Gone Safe (λ u. Safe) _ _
                (ensures-weaken (Known current) (Known current) Safe (λ u. Gone) (λ u. Gone) _
                  (rw ((eq_iff current id).0 mine) (delete_txt-Known id)) (λ u t k. k)
                  (Known-Safe current))
                (ensures-weaken Gone Gone Safe (λ u. Gone) (λ u. Safe) _ (track-Gone "")
                  (λ u. Gone-Safe) Gone-Safe)
                s h)
          | inr other ↦ rw other (Known-Safe current s h)
        ]
