-- ===== src/Delegation/Successor.antt =====
-- A job that has lost its target to a later one, in services/delegation_dns.go.
use certhub_server.Common.{
  ℕ, String, some, ◌≡◌, ◌≢◌, refl, sym, ◌∙◌, inl, inr, str_eq, eq_iff, eq_refl, Bool-cases,
}
use certhub_server.Common.Dict.{lookup, delete, lookup-insert}
use certhub_server.Store.{Result, ok, err}
use certhub_server.Delegation.{
  Cloudflare, State, Provider, DnsEnv, DnsError, Call, tracked, track, replace_delegation_txt,
  release_delegation_txt, present, remember, forget, warned_error, current_id, answer,
  clean_up_known, clean_up, ◌>>=◌,
}
use certhub_server.Delegation.Triples.{After, Ensures, ensures-bind, ensures-then}

module _ (cf : Cloudflare) (env : DnsEnv cf) where
  abbrev Any : State cf → Type 0
  Any s = Unit {0}

  anything : {A : Type 0} (m : Call cf A) → Ensures Any m (λ a. Any) Any
  anything {A} m s h = go (m s)
    where
      go : (r : Result DnsError A × State cf) → After (λ a. Any) Any r
      go (ok a, t) = tt
      go (err e, t) = tt

  -- The table has the id for the target.
  abbrev HasEntry : String → String → State cf → Type 0
  HasEntry name id s = tracked name s.shared.targets ≡ id

  track-HasEntry :
      (name id : String) → Ensures Any (track cf env name id) (λ u. HasEntry name id) Any
  unfolding track tracked
  track-HasEntry name id s h =
      rw (lookup-insert name name id s.shared.targets) (rw (eq_refl name) refl)

  replace-HasEntry :
      (name content : String)
      → Ensures Any (replace_delegation_txt cf env name content) (HasEntry name) Any
  unfolding replace_delegation_txt answer
  replace-HasEntry name content = ensures-then Any Any Any (HasEntry name) _ _ (anything _) (
      ensures-then Any Any Any (HasEntry name) _ _ (anything _) (
        ensures-bind Any (λ id. Any) (HasEntry name) Any _ _ (anything _)
          λ id. ensures-then Any Any Any (HasEntry name) _ _ (anything _) (
            ensures-then Any Any Any (HasEntry name) _ _ (anything _) (
              ensures-bind Any (λ id. Any) (HasEntry name) Any _ _ (anything _)
                λ new.
                  ensures-then Any (HasEntry name new) Any (HasEntry name) _ _
                    (track-HasEntry name new) (λ s h. h)))))

  -- The provider knows a record for the token, and it is that of its target.
  pub record Presented (token : String) (s : State cf) : Type 0 where
    pub name : String
    pub id : String
    pub known : lookup token s.provider.record_ids ≡ some id
    pub target : lookup token s.provider.target_names ≡ some name
    pub current : tracked name s.shared.targets ≡ id

  remember-Presented :
      (token name id : String)
      → Ensures (HasEntry name id) (remember cf env token name id) (λ u. Presented token) Any
  unfolding remember
  remember-Presented token name id s h = record {
    name = name;
    id = id;
    known = rw (lookup-insert token token id s.provider.record_ids) (rw (eq_refl token) refl);
    target = rw (lookup-insert token token name s.provider.target_names) (rw (eq_refl token) refl);
    current = h;
  }

  present-Presented :
      (domain token key_auth : String)
      → Ensures Any (present cf env domain token key_auth) (λ u. Presented token) Any
  unfolding present
  present-Presented domain token key_auth =
      ensures-then Any Any Any (λ u. Presented token) _ _ (anything _)
        (ensures-bind Any (λ t. Any) (λ u. Presented token) Any _ _ (anything _)
          λ target.
            ensures-bind Any (HasEntry (env.un_fqdn (env.to_fqdn target))) (λ u. Presented token)
              Any _ _ (replace-HasEntry _ _) (λ id. remember-Presented token _ id))

  pub presented :
      (domain token key_auth : String) (s : State cf)
      → (present cf env domain token key_auth s).0 ≡ ok tt
      → Presented token (present cf env domain token key_auth s).1
  presented domain token key_auth s done =
      go (present cf env domain token key_auth s) done
        (present-Presented domain token key_auth s tt)
    where
      go :
          (r : Result DnsError (Unit {0}) × State cf)
          → r.0 ≡ ok tt
          → After (λ u. Presented token) Any r
          → Presented token r.1
      go (ok u, t) e h = h
      go (err x, t) e h = absurd (cc)

  -- A release for a record that is no longer the target's.
  release-other :
      (name id : String) (s : State cf)
      → tracked name s.shared.targets ≢ id
      → release_delegation_txt cf env name id s ≡ (ok tt, s)
  unfolding release_delegation_txt ◌>>=◌ current_id answer
  release-other name id s differs = elim (Bool-cases (str_eq (tracked name s.shared.targets) id)) [
    | inl same ↦ absurd (differs ((eq_iff _ id).0 same))
    | inr other ↦ rw other refl
  ]

  pub clean_up-other :
      (token name id : String) (s : State cf)
      → lookup token s.provider.record_ids ≡ some id
      → lookup token s.provider.target_names ≡ some name
      → tracked name s.shared.targets ≢ id
      → clean_up cf env token s ≡ (ok tt, forget cf env token s)
  unfolding clean_up clean_up_known forget warned_error
  clean_up-other token name id s known target differs =
      rw (known, clean_up_known)
        (rw target (rw (release-other name id (forget cf env token s) differs, warned_error) refl))

-- Once a later job's Present has succeeded for a target, the CleanUp of an earlier job for the same
-- target, whose record has another id, succeeds without a call of the API: the zone, the table and
-- the later job's record stay as they are, and the earlier job forgets its token. Neither
-- a cancelled context nor the other jobs matter.
pub clean_up-spares_successor :
    (cf : Cloudflare) (later earlier : DnsEnv cf) (domain token key_auth : String) (s : State cf)
    (name id : String) (old : Provider) (event : ℕ) (old_token old_id : String)
    → (present cf later domain token key_auth s).0 ≡ ok tt
    → let t = (present cf later domain token key_auth s).1 in
      let before : State cf = record { shared = t.shared; provider = old; event = event } in
      lookup token t.provider.target_names ≡ some name
      → lookup token t.provider.record_ids ≡ some id
      → lookup old_token old.target_names ≡ some name
      → lookup old_token old.record_ids ≡ some old_id
      → old_id ≢ id
      → ((clean_up cf earlier old_token before).0 ≡ ok tt)
        × ((clean_up cf earlier old_token before).1.shared ≡ t.shared)
        × ((clean_up cf earlier old_token before).1.provider.record_ids
            ≡ delete old_token old.record_ids)
unfolding forget
clean_up-spares_successor cf later earlier domain token key_auth s name id old event old_token
      old_id done at_target at_id old_target old_known differs =
    let t = (present cf later domain token key_auth s).1 in
    let won = presented cf later domain token key_auth s done in
    let current : tracked name t.shared.targets ≡ id = cc (won.known, won.target, won.current) in
    let ends =
      clean_up-other cf earlier old_token name old_id
        (record { shared = t.shared; provider = old; event = event }) old_known old_target
        (λ e. differs (sym e ∙ current)) in
    (rw ends refl, rw ends refl, rw ends refl)
