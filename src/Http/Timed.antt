-- ===== src/Http/Timed.antt =====
-- The helpers that handlers share (controllers/helpers.go) and the column generating_since.
use certhub_server.Common.{ℕ, String, Option, none, some}
use certhub_server.Models.{Domain}
use certhub_server.Store.{first_certificate}
use certhub_server.System.{Env, Act}
use certhub_server.System.Keeps.{
  Keeps, Stable, Keeps-bind, Keeps-catch, Keeps-pure, Keeps-fail, Keeps-now, Keeps-exec,
  Keeps-outcome,
}
use certhub_server.Lifecycle.Timed.{IsTimed, first_domain-IsTimed}
use certhub_server.Http.{
  Web, Session, Response, require_user_id, or_answer, exec_or, get_domain_owned, load_certificate,
  load_domain_dto, answer_domain,
}

module _ (env : Env) (stable : Stable IsTimed env) where
  pub exec_or-IsTimed {ℓ} :
      {E : Type ℓ} {A : Type 0} (response : Response) (m : Act E A)
      → Keeps IsTimed m
      → Keeps IsTimed (exec_or response m)
  unfolding exec_or
  exec_or-IsTimed response m h = Keeps-catch IsTimed m _ h (λ e. Keeps-fail IsTimed _ response)

  pub or_answer-IsTimed :
      {A : Type 0} (response : Response) (o : Option A) → Keeps IsTimed (or_answer response o)
  or_answer-IsTimed response none = Keeps-fail IsTimed _ response
  or_answer-IsTimed response (some a) = Keeps-pure IsTimed Response a

  pub user-IsTimed : (session : Session) → Keeps IsTimed (require_user_id session)
  unfolding require_user_id
  user-IsTimed session = or_answer-IsTimed _ session

  pub load_certificate-IsTimed {ℓ} :
      (E : Type ℓ) (id : ℕ) → Keeps IsTimed (load_certificate env {E = E} id)
  unfolding load_certificate first_certificate
  load_certificate-IsTimed E id =
      Keeps-bind IsTimed _ _
        (Keeps-outcome IsTimed E _ (Keeps-exec IsTimed env stable (first_certificate _) (λ s h. h)))
        λ found. Keeps-pure IsTimed E _

  module _ (web : Web) where
    pub owned-IsTimed :
        (session : Session) (id : String) → Keeps IsTimed (get_domain_owned env web session id)
    unfolding get_domain_owned
    owned-IsTimed session id = Keeps-bind IsTimed _ _ (user-IsTimed session) λ user_id.
        Keeps-bind IsTimed _ _ (or_answer-IsTimed _ _)
          λ domain_id. exec_or-IsTimed _ _ (first_domain-IsTimed env stable _)

    pub answer_domain-IsTimed : (domain : Domain) → Keeps IsTimed (answer_domain env web domain)
    unfolding answer_domain load_domain_dto
    answer_domain-IsTimed domain =
        Keeps-bind IsTimed _ _
          (Keeps-bind IsTimed _ _ (load_certificate-IsTimed Response domain.id) λ cert.
            Keeps-bind IsTimed _ _ (Keeps-now IsTimed env stable Response)
              λ t. Keeps-pure IsTimed Response _)
          λ dto. Keeps-pure IsTimed Response _
