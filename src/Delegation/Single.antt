-- ===== src/Delegation/Single.antt =====
-- A target has one challenge record at most, over any sequence of calls by the providers of any
-- jobs (services/delegation_dns.go).
use certhub_server.Common.{ℕ, String, false, Option, none, some, ◌≡◌, sym, ◌∙◌, ◌⊎◌, inl, inr}
use certhub_server.Common.Dict.{lookup}
use certhub_server.Store.{Result, ok, err}
use certhub_server.Delegation.{
  Cloudflare, Records, State, Provider, DnsEnv, DnsError, tracked, id_or_empty, present,
  lookup_target, remember, forget, warned_error, clean_up_known, clean_up, named, seen, at_event,
}
use certhub_server.Delegation.Triples.{After, Ensures, ensures-bind, ensures-then, ensures-wrap}
use certhub_server.Delegation.Tracked.{
  View, IsZone, IsTracked, OfZone, On, LeavesAlone, IsTracked-stable,
}
use certhub_server.Delegation.Calls.{at-Here}
use certhub_server.Delegation.Sequence.{Fine, require-Fine, replace-Fine, release-Fine}

module _ (cf : Cloudflare) (view : View cf) (zone n : String) (env : DnsEnv cf)
    (laws : IsZone cf view env.auth_zone zone) (alone : LeavesAlone cf view zone n env) where
  abbrev Good : State cf → Type 0
  Good = Fine cf view zone n env laws alone

  lookup-Good : (domain : String) → Ensures Good (lookup_target cf env domain) (λ t. Good) Good
  unfolding lookup_target
  lookup-Good domain s h = go (env.delegation_target s.event domain)
    where
      after' : Good (at_event cf env (seen cf env s) s)
      after' =
          at-Here cf view zone n env (IsTracked cf view zone n)
            (IsTracked-stable cf view zone n env alone) s h

      go :
          (r : String ⊎ String)
          → After (λ t. Good) Good (named r, at_event cf env (seen cf env s) s)
      go (inl e) = after'
      go (inr t) = after'

  remember-Good :
      (token name id : String) → Ensures Good (remember cf env token name id) (λ u. Good) Good
  unfolding remember
  remember-Good token name id s h = record { shared = h.shared; provider = h.provider }

  pub present-Good :
      (domain token key_auth : String)
      → Ensures Good (present cf env domain token key_auth) (λ u. Good) Good
  unfolding present
  present-Good domain token key_auth =
      ensures-then Good Good Good (λ u. Good) _ _ (require-Fine cf view zone n env laws alone)
        (ensures-bind Good (λ t. Good) (λ u. Good) Good _ _
          (ensures-wrap cf env Good Good (λ t. Good) _ _ (lookup-Good domain))
          λ target.
            ensures-bind Good (λ id. Good) (λ u. Good) Good _ _
              (replace-Fine cf view zone n env laws alone _ _) (λ id. remember-Good token _ id))

  pub clean_up-Good : (token : String) → Ensures Good (clean_up cf env token) (λ u. Good) Good
  unfolding clean_up clean_up_known warned_error forget
  clean_up-Good token s h = go (lookup token s.provider.record_ids)
    where
      warned :
          (r : Result DnsError (Unit {0}) × State cf)
          → After (λ u. Good) Good r
          → After (λ u. Good) Good (warned_error cf env r)
      warned (ok u, t) g = g
      warned (err e, t) g = record {
        shared = record { only = λ w. let logged = w.0 in absurd (cc) };
        provider = g.provider;
      }

      go : (known : Option String) → After (λ u. Good) Good (clean_up_known cf env token known s)
      go none = h
      go (some id) = warned _ (
          release-Fine cf view zone n env laws alone
            (id_or_empty (lookup token s.provider.target_names)) id (forget cf env token s)
            (record { shared = h.shared; provider = h.provider }))

module _ (cf : Cloudflare) (view : View cf) (auth_zone zone n : String) where
  -- One call of one provider. The calls of other jobs that overlap with it are the environment's.
  pub data Step (r : Records cf) : Records cf → Type 0 where
    presents :
        (env : DnsEnv cf) (p : Provider) (event : ℕ) (domain token key_auth : String)
        → env.auth_zone ≡ auth_zone
        → LeavesAlone cf view zone n env
        → OfZone cf view zone n p
        → Step r
            (present cf env domain token key_auth
              (record { shared = r; provider = p; event = event })).1.shared
    cleans_up :
        (env : DnsEnv cf) (p : Provider) (event : ℕ) (token : String)
        → env.auth_zone ≡ auth_zone
        → LeavesAlone cf view zone n env
        → OfZone cf view zone n p
        → Step r
            (clean_up cf env token (record { shared = r; provider = p; event = event })).1.shared

  pub data Reach (r : Records cf) : Records cf → Type 0 where
    here : Reach r r
    next : {s t : Records cf} → Reach r s → Step s t → Reach r t

  either_way :
      (P : Records cf → Type 0) (r : Result DnsError (Unit {0}) × State cf)
      → After (λ u. On cf view zone n P) (On cf view zone n P) r
      → P r.1.shared
  either_way P (ok u, t) h = h.shared
  either_way P (err e, t) h = h.shared

  module _ (laws : IsZone cf view auth_zone zone) where
    Step-IsTracked :
        {r s : Records cf} → Step r s → IsTracked cf view zone n r → IsTracked cf view zone n s
    Step-IsTracked {r} (presents env p event domain token key_auth same alone sane) h =
        either_way (IsTracked cf view zone n) _ (
          present-Good cf view zone n env (rw same laws) alone domain token key_auth _
            (record { shared = h; provider = sane }))
    Step-IsTracked {r} (cleans_up env p event token same alone sane) h =
        either_way (IsTracked cf view zone n) _ (
          clean_up-Good cf view zone n env (rw same laws) alone token _
            (record { shared = h; provider = sane }))

    Reach-IsTracked :
        {r s : Records cf} → Reach r s → IsTracked cf view zone n r → IsTracked cf view zone n s
    Reach-IsTracked here h = h
    Reach-IsTracked (next before step) h = Step-IsTracked step (Reach-IsTracked before h)

    -- Over any sequence of Present and CleanUp calls by the providers of any jobs, whether their
    -- contexts end or the jobs are superseded in the middle, where the API does as documented and
    -- the other jobs leave the target alone during a call, as its mutex has them do: if a target has
    -- no record at first, then it has one record at most after each call, the one that the table
    -- knows of, unless the log has a warning of a record that could not be deleted, or a call of the
    -- API that should have made a record was answered with an error and has made it all the same.
    pub Reach-single :
        (r s : Records cf)
        → ((i : String) → view.has_record r.remote i n → ⊥)
        → Reach r s
        → s.warned ≡ false
        → view.is_intact s.remote
        → (i j : String) → view.has_record s.remote i n
        → view.has_record s.remote j n
        → (i ≡ j) × (i ≡ tracked n s.targets)
    Reach-single r s empty reach quiet intact i j hi hj =
        let safe = Reach-IsTracked reach (record { only = λ w k has. absurd (empty k has) }) in
        let same = safe.only (quiet, intact) i hi in
        (same ∙ sym (safe.only (quiet, intact) j hj), same)
