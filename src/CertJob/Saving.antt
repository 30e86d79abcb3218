-- ===== src/CertJob/Saving.antt =====
-- saveCertificateRecord in a quiet environment.
use Prim.Native.Nat.{ℕ, suc}
use certhub_server.Common.{
  Bool, false, not, Option, none, some, [], ◌∷◌, ◌++◌, ◌≡◌, refl, ap, ◌∙◌, ◌==◌, any, find, update,
  find-any, Option-cases, inl, inr, is_none,
}
use certhub_server.Common.Int.{pos}
use certhub_server.Models.{Time, Domain, Certificate, active}
use certhub_server.Store.{Db, ok, found, first_certificate, create_certificate, save_certificate}
use certhub_server.System.{Env, World, acts, after, isolated, exec}
use certhub_server.System.Quiet.{IsQuiet, exec-quiet}
use certhub_server.Lifecycle.{has_id}
use certhub_server.Lifecycle.Quiet.{updated, with_db, update_where-quiet}
use certhub_server.CertJob.{
  of_domain, save_certificate_record, save_body, store_certificate, insert_certificate,
  replace_certificate,
}

-- The tables with the certificate in the place of the one that was found, or added.
unfoldable pub stored : Time → Certificate → Option Certificate → Db → Db
stored t c none db = record db {
  certificates =
      db.certificates ++ record c { id = db.next_id; created_at = t; updated_at = t } ∷ [];
  next_id = suc db.next_id;
}
stored t c (some old) db = record db {
  certificates =
      update (λ e. e.id == old.id)
        (λ _. record c { id = old.id; created_at = old.created_at; updated_at = t })
        db.certificates;
}

-- The row of a domain whose certificate was stored.
abbrev pub activated : Domain → Domain
activated d = record d {
  status = active;
  error_message = "";
  generating_since = none;
  auto_renew_failures = pos 0;
  auto_renew_backoff_until = none;
}

isolated-IsQuiet : (env : Env) → IsQuiet env → IsQuiet (isolated env)
isolated-IsQuiet env q = record { works = q.works; alone = λ n s. refl }

first_certificate-quiet :
    (env : Env) (p : Certificate → Bool) (o : Option Certificate) (w : World)
    → IsQuiet env
    → find p w.shared.db.certificates ≡ o
    → exec env (first_certificate p) w ≡ (found o, after w w.shared)
unfolding first_certificate
first_certificate-quiet env p o w q e = rw (exec-quiet env q, first_certificate) (rw e)

module _ (env : Env) (q : IsQuiet env) (c : Certificate) (w : World) where
  replace_certificate-quiet :
      (old : Certificate)
      → replace_certificate env c old w
        ≡ (ok tt, after w (with_db (stored (env.clock w.event) c (some old) w.shared.db) w.shared))
  unfolding replace_certificate acts save_certificate stored
  replace_certificate-quiet old = simp (exec-quiet env q)

  insert_certificate-quiet :
      find (of_domain c.domain_id) w.shared.db.certificates ≡ none
      → insert_certificate env c w
        ≡ (ok tt, after w (with_db (stored (env.clock w.event) c none w.shared.db) w.shared))
  unfolding insert_certificate acts stored
  insert_certificate-quiet missing = simp (exec-quiet env q) (rw (created, acts))
    where
      free : any (of_domain c.domain_id) w.shared.db.certificates ≡ false
      free = find-any (of_domain c.domain_id) _ ∙ ap (λ o. not (is_none o)) missing

      row : Certificate
      row = record c {
        id = w.shared.db.next_id;
        created_at = env.clock w.event;
        updated_at = env.clock w.event;
      }

      created : create_certificate (env.clock w.event) c w.shared.db ≡ (
        ok row,
        record (w.shared.db) {
          certificates = w.shared.db.certificates ++ row ∷ [];
          next_id = suc w.shared.db.next_id;
        },
      )
      created = unfold create_certificate in rw free

-- Without faults and interference: saveCertificateRecord puts the certificate in the place of the
-- domain's certificate, whose key and creation time it takes over, or adds it if there is none;
-- the live row of the domain becomes active, with no message and no lock, failures or backoff.
pub save_certificate_record-quiet :
    (env : Env) (domain_id : ℕ) (c : Certificate) (w : World)
    → IsQuiet env
    → (save_certificate_record env domain_id c w).1.shared
      ≡ with_db
          (updated (env.clock (suc (suc w.event))) (has_id domain_id) activated (
            stored
              (env.clock (suc w.event))
              c
              (find (of_domain c.domain_id) w.shared.db.certificates)
              w.shared.db))
          w.shared
unfolding save_certificate_record save_body acts store_certificate
save_certificate_record-quiet env d c w q =
    let iq = isolated-IsQuiet env q in
    elim (Option-cases (find (of_domain c.domain_id) w.shared.db.certificates)) [
      | inl missing ↦
          simp
            (
              q.alone,
              first_certificate-quiet (isolated env) (of_domain c.domain_id) none w iq missing,
              missing,
            )
            (simp (
              insert_certificate-quiet (isolated env) iq c (after w w.shared) missing,
              update_where-quiet (isolated env) iq,
            ))
      | inr (old, there) ↦
          simp
            (
              q.alone,
              first_certificate-quiet (isolated env) (of_domain c.domain_id) (some old) w iq there,
              there,
            )
            (simp (
              replace_certificate-quiet (isolated env) iq c (after w w.shared) old,
              update_where-quiet (isolated env) iq,
            ))
    ]
