-- ===== src/Acme/Stored.antt =====
-- The certificate that a job has stored, and what a renewal hands to lego: saveCertificateRecord of
-- controllers/certificate.go and BuildCertResource of services/lego.go, one after the other.
use Prim.Native.Nat.{ℕ, suc}
use certhub_server.Common.{
  Bool, true, Option, none, some, List, [], ◌∷◌, ◌≡◌, refl, ◌∙◌, ◌==◌, ==_refl, find, find-append,
  update, inr, arith,
}
use certhub_server.Models.{Time, Bytes, Domain, User, Certificate}
use certhub_server.Store.{Db}
use certhub_server.System.{Env, World, CertResource}
use certhub_server.System.Quiet.{IsQuiet}
use certhub_server.Lifecycle.Quiet.{updated}
use certhub_server.CertJob.{of_domain, save_certificate_record, cert_row}
use certhub_server.CertJob.Saving.{stored, save_certificate_record-quiet}
use certhub_server.Acme.Client.{build_cert_resource}

-- The row that takes the place of the one that was found is found in its turn.
find-replaced :
    (d : ℕ) (row old : Certificate) (xs : List Certificate)
    → of_domain d row ≡ true
    → find (of_domain d) xs ≡ some old
    → find (of_domain d) (update (λ e. e.id == old.id) (λ _. row) xs) ≡ some row
unfolding find update
find-replaced d row old [] new there = absurd (ground arith)
find-replaced d row old (x ∷ xs) new there = ground (arith, find-replaced d row old xs new)

find-stored :
    (t : Time) (c : Certificate) (d : ℕ) (o : Option Certificate) (db : Db)
    → c.domain_id ≡ d
    → find (of_domain d) db.certificates ≡ o
    → (id : ℕ) × (created : Time) × (find (of_domain d) (stored t c o db).certificates
        ≡ some (record c { id = id; created_at = created; updated_at = t }))
unfolding stored
find-stored t c d none db same there = (
  db.next_id,
  t,
  find-append (of_domain d) db.certificates _
      ∙ rw there (unfold find in rw same (rw (==_refl d) refl)),
)
find-stored t c d (some old) db same there = (
  old.id,
  old.created_at,
  find-replaced d (record c { id = old.id; created_at = old.created_at; updated_at = t }) old
      db.certificates (ground arith) there,
)

-- Without faults and interference: after a job has stored what the authority issued, a renewal of
-- the domain finds it and starts from the same certificate, addresses, issuer and key, under the
-- domain's name, if decryption gives back the key.
pub build_cert_resource-save :
    (env : Env) (domain : Domain) (user : User) (renew auto : Bool) (token : ℕ) (t : Time)
    (certs : CertResource) (key : Bytes) (w : World)
    → IsQuiet env
    → env.decrypt key ≡ inr certs.private_key
    → let row = cert_row env domain user renew auto token t certs key in
      (c : Certificate) × (find
          (of_domain domain.id)
          (save_certificate_record env domain.id row w).1.shared.db.certificates
        ≡ some c)
      × (build_cert_resource env c ≡ inr (record certs { domain = domain.domain }))
unfolding updated build_cert_resource
build_cert_resource-save env domain user renew auto token t certs key w q opens =
    let row = cert_row env domain user renew auto token t certs key in
    let (id, created, there) =
      find-stored (env.clock (suc w.event)) row domain.id
        (find (of_domain domain.id) w.shared.db.certificates) w.shared.db refl refl in
    (
      record row { id = id; created_at = created; updated_at = env.clock (suc w.event) },
      rw (save_certificate_record-quiet env domain.id row w q) there,
      rw (opens, build_cert_resource) refl,
    )
