-- ===== src/Listener/Validate/Publications/Matched.antt =====
-- Accepted publications: the published listeners and the ports of the Service objects are the same.
use clavenar_charts.Base.{
  ◌≡◌, sym, ap, ◌∙◌, true, not, List, [], ◌∷◌, Bool-cases, inl, inr, not-eq-false,
}
use mathlib.Core.Path.{subst}
use clavenar_charts.Base.Result.{ok, ◌>>=◌, gather, >>=-eq-ok, ok-injective}
use clavenar_charts.Value.{Value, ℤ}
use clavenar_charts.Value.Access.{truthy, item, each, hashed}
use clavenar_charts.Value.Number.{to_int}
use clavenar_charts.Listener.Condition.{condition_enabled}
use clavenar_charts.Listener.Policies.Ingress.{hashed-eq-ok}
use clavenar_charts.Listener.Errors.{<+>-nil, refuse-nil, All, gather-All}
use clavenar_charts.Listener.Validate.Contracts.{report}
use clavenar_charts.Listener.Validate.Contracts.Report.{report-All}
use clavenar_charts.Listener.Validate.Publications.Added.{
  hashed_self, Keeps, extended, extended-Keeps, extended-has,
}
use clavenar_charts.Listener.Validate.Publications.{
  Publication, is_published, publications, aliased, enabled_ports, port_errors, object_publications,
  ungoverned_errors, publication_errors,
}

-- The publication is one of a list.
abbrev pub IsAmong : List Publication → Publication → Type 0
IsAmong pubs p = is_published pubs p.0 p.1 ≡ true

-- The service and the port that a listener publishes, if it publishes one, are among a list.
abbrev pub IsListed : List Publication → Value → Type 0
IsListed pubs listener =
    (published service raw : Value) (port : ℤ)
    → item listener "servicePublished" ≡ ok published
    → truthy published ≡ true
    → item listener "service" ≡ ok service
    → item listener "servicePort" ≡ ok raw
    → to_int raw ≡ ok port
    → is_published pubs service port ≡ true

port_lem :
    (pubs : List Publication) (id service port_spec : Value) (zs : List Publication)
    → port_errors pubs id service port_spec ≡ ok ([], zs)
    → All (IsAmong pubs) zs
unfolding port_errors
port_lem pubs id service port_spec zs h =
    let (raw, _, h1) = >>=-eq-ok (item port_spec "port") _ h in
    let (port, _, h2) = >>=-eq-ok (to_int raw) _ h1 in
    let e = ok-injective h2 in
    subst (All (IsAmong pubs)) (ap (λ p. p.1) e)
      (not-eq-false (refuse-nil (not (is_published pubs service port)) _ (ap (λ p. ok p.0) e)), tt)

object_lem :
    (values : Value) (pubs : List Publication) (object : Value) (zs : List Publication)
    → object_publications values pubs object ≡ ok ([], zs)
    → All (IsAmong pubs) zs
unfolding object_publications
object_lem values pubs object zs h =
    let (condition, _, h1) = >>=-eq-ok (item object "enabledWhen") _ h in
    let (enabled, _, h2) = >>=-eq-ok (condition_enabled condition values) _ h1 in
    elim (Bool-cases enabled) [
      | inl e ↦
          let (raw_id, _, h3) = >>=-eq-ok (item object "id") _ (rw e at h2) in
          let (id, _, h4) = >>=-eq-ok (hashed raw_id) _ h3 in
          let (ports, _, h5) = >>=-eq-ok (enabled_ports values object) _ h4 in
          report-All (port_errors pubs id (aliased id)) (IsAmong pubs) ports zs
            (port_lem pubs id (aliased id)) h5
      | inr e ↦ subst (All (IsAmong pubs)) (ap (λ p. p.1) (ok-injective (rw e at h2))) tt
    ]

-- A published listener, where the rest of the loop keeps and lists what it is given.
published_lem :
    (listener : Value) (rest : List Value) (pubs out : List Publication)
    → ((next : List Publication)
        → publications rest next ≡ ok out
        → Keeps next out × All (IsListed out) rest)
    → (item listener "service" >>= λ raw_service.
          (hashed raw_service >>= λ service.
          (item listener "servicePort" >>= λ raw.
          (to_int raw >>= λ port. ok (extended pubs service port)))))
        >>= (λ next. publications rest next)
      ≡ ok out
    → Keeps pubs out × All (IsListed out) (listener ∷ rest)
published_lem listener rest pubs out later h =
    let (next, hn, h0) =
      >>=-eq-ok
        (item listener "service" >>= λ raw_service.
          (hashed raw_service >>= λ service.
          (item listener "servicePort" >>= λ raw.
          (to_int raw >>= λ port. ok (extended pubs service port)))))
        (publications rest) h in
    let (raw_service, h1', h1) = >>=-eq-ok (item listener "service") _ hn in
    let (service, h2', h2) = >>=-eq-ok (hashed raw_service) _ h1 in
    let (raw, h3', h3) = >>=-eq-ok (item listener "servicePort") _ h2 in
    let (port, h4', h4) = >>=-eq-ok (to_int raw) _ h3 in
    let (keeps, listed) =
      later (extended pubs service port) (ap (publications rest) (ok-injective h4) ∙ h0) in
    (
      (λ s p k. keeps s p (extended-Keeps pubs service port s p k)),
      (
        (λ published service' raw' port' q on e1 e2 e3.
            subst (λ x. is_published out x port' ≡ true)
              (hashed-eq-ok raw_service h2' ∙ ok-injective (sym h1' ∙ e1))
              (subst (λ x. is_published out service x ≡ true)
                (ok-injective (sym h4' ∙ ap to_int (ok-injective (sym h3' ∙ e2)) ∙ e3))
                (keeps service port
                  (extended-has pubs service port (hashed_self raw_service service h2'))))),
        listed,
      ),
    )

-- The loop keeps what is published, and lists what each listener publishes.
publications_lem :
    (active : List Value) (pubs out : List Publication)
    → publications active pubs ≡ ok out
    → Keeps pubs out × All (IsListed out) active
unfolding publications
publications_lem [] pubs out h =
    ((λ s p k. subst (λ x. is_published x s p ≡ true) (ok-injective h) k), tt)
publications_lem (listener ∷ rest) pubs out h =
    let (published, h1', h1) = >>=-eq-ok (item listener "servicePublished") _ h in
    elim (Bool-cases (truthy published)) [
      | inr e ↦
          let (keeps, listed) = publications_lem rest pubs out (rw e at h1) in
          (
            keeps,
            (
              (λ published' service raw port q on.
                  cc (ap truthy (ok-injective (sym h1' ∙ q)) ∙ on)),
              listed,
            ),
          )
      | inl e ↦
          published_lem listener rest pubs out (λ next. publications_lem rest next out) (rw e at h1)
    ]

-- The listeners and the Service objects publish the same.
pub record IsMatched (matrix values : Value) (active : List Value) : Type 0 where
  pub raw : Value
  pub objects : List Value
  pub pubs : List Publication
  pub published : List Publication
  pub raw_lem : item matrix "serviceObjects" ≡ ok raw
  pub objects_lem : each raw ≡ ok objects
  pub pubs_lem : publications active [] ≡ ok pubs
  pub published_lem : report (object_publications values pubs) objects ≡ ok ([], published)
  pub listed : All (IsListed pubs) active
  pub governed : All (IsAmong published) pubs
  pub listening : All (IsAmong pubs) published

-- Where the comparison of the publications has no error, the service and the port of every active
-- listener that is published are among the publications, each publication is an enabled port of an
-- enabled Service object of the matrix, under the service that the object stands for, and each such
-- port of a Service object is one of the publications.
pub publication_errors-IsMatched :
    (matrix values : Value) (active : List Value)
    → publication_errors matrix values active ≡ ok []
    → IsMatched matrix values active
unfolding publication_errors ungoverned_errors
publication_errors-IsMatched matrix values active h =
    let (pubs, h1', h1) = >>=-eq-ok (publications active []) _ h in
    let (raw, h2', h2) = >>=-eq-ok (item matrix "serviceObjects") _ h1 in
    let (objects, h3', h3) = >>=-eq-ok (each raw) _ h2 in
    let (reported, h4', h4) = >>=-eq-ok (report (object_publications values pubs) objects) _ h3 in
    let (unreported, governed) =
      <+>-nil (ok reported.0) (gather (ungoverned_errors reported.1) pubs) h4 in
    let reported_lem = h4' ∙ ap (λ errors. ok (errors, reported.1)) (ok-injective unreported) in
    record {
      raw = raw;
      objects = objects;
      pubs = pubs;
      published = reported.1;
      raw_lem = h2';
      objects_lem = h3';
      pubs_lem = h1';
      published_lem = reported_lem;
      listed = (publications_lem active [] pubs h1').1;
      governed =
          gather-All (ungoverned_errors reported.1) (IsAmong reported.1) pubs
            (λ p e. not-eq-false (refuse-nil (not (is_published reported.1 p.0 p.1)) _ e)) governed;
      listening =
          report-All (object_publications values pubs) (IsAmong pubs) objects reported.1
            (object_lem values pubs) reported_lem;
    }
