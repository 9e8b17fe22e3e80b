-- ===== src/Health.antt =====
-- src/external/health: the two probes, and the routes of `main` in src/cmd/main.go.
use aggregator_demo.Base.{
  ℕ, ◌≡◌, ◌↔◌, refl, Option, none, some, arith, ◌==◌, nat_eq, text_eq, if◌then◌else◌,
}
use aggregator_demo.Base.Text.{Text, codes}
use aggregator_demo.Entity.{Error}

pub record Response : Type 0 where
  pub content_type : Text
  pub status : ℕ
  pub body : Text

abbrev pub content_type : Text
content_type = codes "text/plain; charset=utf-8"

abbrev pub body_ok : Text
body_ok = codes "ok"

abbrev pub body_db_unavailable : Text
body_db_unavailable = codes "db unavailable"

-- `Live`
abbrev pub live : Response
live = record { content_type = content_type; status = 200; body = body_ok }

-- `Ready`, by what the ping of the database gives; a ping that takes longer than `readyTimeout`
-- gives the error of the context.
unfoldable pub ready : Option Error → Response
ready none = record { content_type = content_type; status = 200; body = body_ok }
ready (some e) = record { content_type = content_type; status = 503; body = body_db_unavailable }

-- The routes that `main` registers; `not_found` is what `http.ServeMux` answers to any other path.
unfoldable pub serve : (metrics not_found : Response) → Option Error → Text → Response
unfolding ready
serve metrics not_found ping path =
    if path == codes "/metrics"
    then metrics
    else if path == codes "/healthz"
    then live
    else if path == codes "/readyz"
    then ready ping
    else not_found

-- The readiness probe answers 200 exactly if the database answers the ping, and then as the liveness
-- probe does; the answer of the liveness probe does not depend on the database.
pub serve-probes :
    (metrics not_found : Response) (ping : Option Error)
    → (((serve metrics not_found ping (codes "/readyz")).status ≡ 200) ↔ (ping ≡ none))
      × (serve metrics not_found none (codes "/readyz")
          ≡ serve metrics not_found ping (codes "/healthz"))
unfolding serve ready text_eq
serve-probes metrics not_found none = ((λ h. refl, λ h. refl), refl)
serve-probes metrics not_found (some e) =
    ((λ h. absurd (omega (arith, h)), λ h. absurd (cc h)), refl)
