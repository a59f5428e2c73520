-- ===== src/Listener/Capabilities/Accepted.antt =====
-- What an accepted render of the capability bundle satisfies.
pub mod Mounted
use clavenar_charts.Base.{
  String, ◌<>◌, ◌≡◌, refl, sym, ap, ◌∙◌, Bool, true, false, not, Option, none, some, List, [], ◌∷◌,
  not-eq-false, Option-cases, inl, inr, if◌then◌else◌,
}
use clavenar_charts.Base.Result.{Result, ok, ◌>>=◌, keep_if, >>=-eq-ok, ok-injective}
use clavenar_charts.Value.{Value, str, dict, end, list}
use clavenar_charts.Value.Equality.{py_eq}
use clavenar_charts.Value.Access.{truthy, get, get_or, or_else, is_true}
use clavenar_charts.Listener.Errors.{refuse, <+>-nil, refuse-nil}
use clavenar_charts.Listener.Capabilities.{
  is_bundle_map, bundle_map_name, inventory_drifts, admits_website, bundle_errors, content_errors,
  raw_errors, configmap_errors, validate_workload_capability_contract,
}
use clavenar_charts.Listener.Capabilities.Target.{Bundle, targets}
use clavenar_charts.Listener.Capabilities.Accepted.Mounted.{AllMount, targets_errors-AllMount}

-- The inventory of the bundle is the canonical one, the website is not admitted, and the enabled
-- services mount the bundle.
pub record IsCanonical (values : Value) (docs : List Value) (release : String) (b : Bundle)
    : Type 0 where
  pub identities : Value
  pub services : Value
  pub identities_lem : get b.content "workloadIdentities" ≡ ok identities
  pub services_lem : get b.content "services" ≡ ok services
  pub inventory :
      inventory_drifts b.content (or_else identities (list [])) (or_else services (dict end))
      ≡ ok false
  pub no_website : admits_website (or_else services (dict end)) ≡ ok false
  pub mounted : AllMount values docs release b targets

drift_lem :
    (drifts : Bool) (message : String) (others : Result (List String))
    → (if drifts then ok (message ∷ []) else others) ≡ ok []
    → (drifts ≡ false) × (others ≡ ok [])
drift_lem true message others h = cc (ok-injective h)
drift_lem false message others h = (refl, h)

website_lem :
    (services : Value)
    → (admits_website services >>= λ website.
        refuse website "website identity entered generated ledger application routes")
      ≡ ok []
    → admits_website services ≡ ok false
website_lem services h =
    let (website, e, h1) = >>=-eq-ok (admits_website services) _ h in
    e ∙ ap ok (refuse-nil website _ h1)

bundle_lem :
    (values : Value) (docs : List Value) (release : String) (b : Bundle)
    → bundle_errors values docs release b ≡ ok []
    → IsCanonical values docs release b
unfolding bundle_errors
bundle_lem values docs release b h =
    let (identities, h1', h1) = >>=-eq-ok (get b.content "workloadIdentities") _ h in
    let (services, h2', h2) = >>=-eq-ok (get b.content "services") _ h1 in
    let (drifts, h3', h3) =
      >>=-eq-ok
        (inventory_drifts b.content (or_else identities (list [])) (or_else services (dict end))) _
        h2 in
    let (canonical, h4) = drift_lem drifts _ _ h3 in
    let (website, mounted) = <+>-nil _ _ h4 in
    record {
      identities = identities;
      services = services;
      identities_lem = h1';
      services_lem = h2';
      inventory = h3' ∙ ap ok canonical;
      no_website = website_lem (or_else services (dict end)) website;
      mounted = targets_errors-AllMount values docs release b targets mounted;
    }

module _ (sha256 : String → String) (json_loads : String → Option Value) where
  abbrev pub bundle_of : String → String → Value → Bundle
  bundle_of release raw content = record {
    content = content;
    digest = "sha256:" <> sha256 raw;
    map_name = bundle_map_name release ("sha256:" <> sha256 raw);
  }

  -- There is one ConfigMap, immutable and named by the digest of its text.
  pub record IsBundled (values : Value) (docs : List Value) (release : String) : Type 0 where
    pub configmap : Value
    pub raw_contents : Value
    pub raw : String
    pub content : Value
    pub immutable : Value
    pub metadata : Value
    pub name : Value
    pub one : keep_if is_bundle_map docs ≡ ok (configmap ∷ [])
    pub data_lem : get configmap "data" ≡ ok raw_contents
    pub raw_lem :
        get (or_else raw_contents (dict end)) "workload-capability-bundle.json" ≡ ok (str raw)
    pub parsed : json_loads raw ≡ some content
    pub immutable_lem : get configmap "immutable" ≡ ok immutable
    pub is_immutable : is_true immutable ≡ true
    pub metadata_lem : get_or configmap "metadata" (dict end) ≡ ok metadata
    pub name_lem : get metadata "name" ≡ ok name
    pub addressed : py_eq name (str (bundle_map_name release ("sha256:" <> sha256 raw))) ≡ true
    pub is_canonical : IsCanonical values docs release (bundle_of release raw content)

  content_lem :
      (values : Value) (docs : List Value) (release : String) (configmap raw_contents : Value)
      (raw : String) (content : Value)
      → keep_if is_bundle_map docs ≡ ok (configmap ∷ [])
      → get configmap "data" ≡ ok raw_contents
      → get (or_else raw_contents (dict end)) "workload-capability-bundle.json" ≡ ok (str raw)
      → json_loads raw ≡ some content
      → content_errors sha256 json_loads values docs release configmap raw content ≡ ok []
      → IsBundled values docs release
  unfolding content_errors
  content_lem values docs release configmap raw_contents raw content one found text parsed h =
      let (immutable, h1', h1) = >>=-eq-ok (get configmap "immutable") _ h in
      let (metadata, h2', h2) = >>=-eq-ok (get_or configmap "metadata" (dict end)) _ h1 in
      let (name, h3', h3) = >>=-eq-ok (get metadata "name") _ h2 in
      let (fixed, h4) = <+>-nil _ _ h3 in
      let (addressed, canonical) = <+>-nil _ _ h4 in
      record {
        configmap = configmap;
        raw_contents = raw_contents;
        raw = raw;
        content = content;
        immutable = immutable;
        metadata = metadata;
        name = name;
        one = one;
        data_lem = found;
        raw_lem = text;
        parsed = parsed;
        immutable_lem = h1';
        is_immutable = not-eq-false (refuse-nil (not (is_true immutable)) _ fixed);
        metadata_lem = h2';
        name_lem = h3';
        addressed = not-eq-false (
            refuse-nil (not (py_eq name (str (bundle_map_name release ("sha256:" <> sha256 raw)))))
              _ addressed);
        is_canonical = bundle_lem values docs release (bundle_of release raw content) canonical;
      }

  raw_lem :
      (values : Value) (docs : List Value) (release : String) (configmap raw_contents raw : Value)
      → keep_if is_bundle_map docs ≡ ok (configmap ∷ [])
      → get configmap "data" ≡ ok raw_contents
      → get (or_else raw_contents (dict end)) "workload-capability-bundle.json" ≡ ok raw
      → raw_errors sha256 json_loads values docs release configmap raw ≡ ok []
      → IsBundled values docs release
  unfolding raw_errors content_errors
  raw_lem values docs release configmap raw_contents (str raw) one found text h =
      elim (Option-cases (json_loads raw)) [
        | inl e ↦ cc (ok-injective (rw (e, raw_errors) at h))
        | inr (content, e) ↦
            content_lem values docs release configmap raw_contents raw content one found text e
              (rw (e, raw_errors) at h)
      ]
  raw_lem values docs release configmap raw_contents _ one found text h = cc (ok-injective h)

  configmap_lem :
      (values : Value) (docs : List Value) (release : String) (configmaps : List Value)
      → keep_if is_bundle_map docs ≡ ok configmaps
      → configmap_errors sha256 json_loads values docs release configmaps ≡ ok []
      → IsBundled values docs release
  unfolding configmap_errors
  configmap_lem values docs release [] one h = cc (ok-injective h)
  configmap_lem values docs release (c ∷ d ∷ cs) one h = cc (ok-injective h)
  configmap_lem values docs release (configmap ∷ []) one h =
      let (raw_contents, h1', h1) = >>=-eq-ok (get configmap "data") _ h in
      let (raw, h2', h2) =
        >>=-eq-ok (get (or_else raw_contents (dict end)) "workload-capability-bundle.json") _ h1 in
      raw_lem values docs release configmap raw_contents raw one h1' h2' h2

  -- Where the validator of the workload capabilities reports nothing, the render has one ConfigMap
  -- with the bundle's label; it is immutable, its name carries the SHA-256 of its text, and its text
  -- is a JSON bundle with the canonical inventory, whose ledger routes do not admit the website. Each
  -- of the four services that the values enable has one Deployment with one container of its name:
  -- under workload TLS it has exactly three governed variables, with the path and the digest of the
  -- bundle and the digest of its matrix, and mounts the file read-only from that ConfigMap; without
  -- workload TLS it has no governed variable, mount or volume.
  pub validate_workload_capability_contract-IsBundled :
      (values : Value) (docs : List Value) (release : String)
      → validate_workload_capability_contract sha256 json_loads values docs release ≡ ok []
      → IsBundled values docs release
  unfolding validate_workload_capability_contract
  validate_workload_capability_contract-IsBundled values docs release h =
      let (configmaps, found, h1) = >>=-eq-ok (keep_if is_bundle_map docs) _ h in
      configmap_lem values docs release configmaps found h1
