-- ===== src/Listener/Peers/Foreign.antt =====
-- Which configured peers the validators accept.
use clavenar_charts.Base.{
  ℕ, String, ◌≡◌, refl, sym, ◌∙◌, ap, ◌↔◌, ◌⊎◌, inl, inr, Bool, true, false, not, List, [], ◌∷◌,
  ◌++◌, arith, ◌==◌, Bool-cases, not-eq-false,
}
use clavenar_charts.Base.Result.{Result, ok, ok-injective}
use clavenar_charts.Value.{Value, null, str, dict, Fields, list}
use clavenar_charts.Value.Dict.{has_key}
use clavenar_charts.Value.Equality.{py_eq}
use clavenar_charts.Value.Access.{truthy, each, or_else}
use clavenar_charts.Listener.Values.{value_at}
use clavenar_charts.Listener.Peers.{
  complain, each_indexed, names_app, chosen_namespace, namespace_value_errors, foreign_peer,
  local_peer, prometheus_namespace, peer_requirements, validate_nats_demo_mint_peer,
  validate_simulator_peer, validate_demo_reset_peer,
}

-- The peer chooses Pods of the application, in one namespace that is named and is neither the
-- release's nor that of Prometheus.
pub record IsForeign (app release : String) (prometheus : Value) (configured : Fields)
    : Type 0 where
  pub names : names_app app configured ≡ true
  pub namespace : String
  pub chosen : chosen_namespace configured ≡ str namespace
  pub named : (namespace == "") ≡ false
  pub outside : (namespace == release) ≡ false
  pub unmonitored : py_eq (str namespace) prometheus ≡ false

complain-eq-nil :
    (bad : Bool) (message : String) (rest : List String)
    → complain bad message ++ rest ≡ []
    → (bad ≡ false) × (rest ≡ [])
complain-eq-nil true message rest h = cc
complain-eq-nil false message rest h = (refl, h)

namespace_lem :
    (path what : String) (index : ℕ) (release : String) (prometheus v : Value)
    → namespace_value_errors path what index release prometheus v ≡ []
    → (namespace : String) × (v ≡ str namespace)
      × ((namespace == "") ≡ false)
      × ((namespace == release) ≡ false)
      × (py_eq (str namespace) prometheus ≡ false)
unfolding namespace_value_errors
namespace_lem path what index release prometheus (str s) h = elim (Bool-cases (s == "")) [
  | inl e ↦ cc (rw e at h)
  | inr e ↦ elim (Bool-cases (s == release)) [
    | inl f ↦ cc (rw f at (rw e at h))
    | inr f ↦ elim (Bool-cases (py_eq (str s) prometheus)) [
      | inl g ↦ cc (rw g at (rw f at (rw e at h)))
      | inr g ↦ (s, refl, e, f, g)
    ]
  ]
]
namespace_lem path what index release prometheus null h = cc
namespace_lem path what index release prometheus _ h = cc

-- A configured peer has no error exactly when it is foreign.
foreign_peer_iff :
    (path what app release : String) (prometheus : Value) (index : ℕ) (configured : Fields)
    → (foreign_peer path what app release prometheus index (dict configured) ≡ [])
      ↔ IsForeign app release prometheus configured
unfolding foreign_peer namespace_value_errors
foreign_peer_iff path what app release prometheus index configured =
    (λ h. clean h, λ f. rw (f.names, f.chosen, f.named, f.outside, f.unmonitored))
  where
    clean :
        foreign_peer path what app release prometheus index (dict configured) ≡ []
        → IsForeign app release prometheus configured
    clean h =
        let (good, rest) = complain-eq-nil (not (names_app app configured)) _ _ h in
        let (namespace, chosen, named, outside, unmonitored) =
          namespace_lem path what index release prometheus (chosen_namespace configured) rest in
        record {
          names = not-eq-false good;
          namespace = namespace;
          chosen = chosen;
          named = named;
          outside = outside;
          unmonitored = unmonitored;
        }

-- The paths that must be set, and at most one peer without errors.
abbrev pub Single : (Value → Type 0) → Value → Value → List Value → Type 0
Single Accepted first second peers =
    (peers ≡ [])
    ⊎ ((p : Value) × (peers ≡ p ∷ []) × (truthy first ≡ true) × (truthy second ≡ true) × Accepted p)

head_eq : {x y : Value} → x ∷ [] ≡ y ∷ [] → x ≡ y
head_eq e = cc

requirements_iff :
    (values : Value) (path first first_words second second_words : String)
    (check : ℕ → Value → List String) (peers : List Value)
    → (peer_requirements values path ((first, first_words) ∷ (second, second_words) ∷ []) peers
          ++ each_indexed check 0 peers
        ≡ [])
      ↔ Single (λ p. check 0 p ≡ []) (value_at values first) (value_at values second) peers
unfolding peer_requirements each_indexed
requirements_iff values path first first_words second second_words check [] =
    (λ h. inl refl, λ f. ground arith)
requirements_iff values path first first_words second second_words check (p ∷ []) = (
  λ h. inr (p, refl, ground arith, ground arith, ground arith),
  λ f. elim f [ inl e ↦ cc | inr (x, e, a, b, c) ↦ rw (a, b) (rw (head_eq e, c)) ],
)
requirements_iff values path first first_words second second_words check (p ∷ q ∷ ps) =
    (λ h. ground arith, λ f. elim f [ inl e ↦ cc | inr (x, e, a, b, c) ↦ cc ])

-- What the validators of single peers accept: a peer that is no mapping is left to
-- `validate_exact_positive_peers`.
abbrev pub AcceptsForeign : String → String → Value → Value → Type 0
AcceptsForeign app release prometheus (dict configured) =
    IsForeign app release prometheus configured
AcceptsForeign app release prometheus _ = Unit

-- A peer in the release's own namespace.
abbrev pub AcceptsLocal : String → Value → Type 0
AcceptsLocal app (dict configured) =
    (has_key "namespaceSelector" configured ≡ false) × (names_app app configured ≡ true)
AcceptsLocal app _ = Unit

pub foreign_value_iff :
    (path what app release : String) (prometheus : Value) (index : ℕ) (p : Value)
    → (foreign_peer path what app release prometheus index p ≡ [])
      ↔ AcceptsForeign app release prometheus p
unfolding foreign_peer
foreign_value_iff path what app release prometheus index (dict configured) =
    foreign_peer_iff path what app release prometheus index configured
foreign_value_iff path what app release prometheus index _ = (λ h. tt, λ f. refl)

local_value_iff :
    (path app : String) (index : ℕ) (p : Value)
    → (local_peer path app index p ≡ []) ↔ AcceptsLocal app p
unfolding local_peer
local_value_iff path app index (dict configured) =
    (λ h. (ground arith, ground arith), λ f. ground arith)
local_value_iff path app index _ = (λ h. tt, λ f. refl)

Single-map :
    (P Q : Value → Type 0) (first second : Value) (peers : List Value)
    → ((p : Value) → P p → Q p)
    → Single P first second peers
    → Single Q first second peers
Single-map P Q first second peers f (inl e) = inl e
Single-map P Q first second peers f (inr (p, e, a, b, c)) = inr (p, e, a, b, f p c)

-- A validator that returns the errors about the whole and those of each peer.
validated_iff :
    (values : Value) (path first first_words second second_words : String)
    (check : ℕ → Value → List String) (peers : List Value) (Accepts : Value → Type 0)
    {validation : Result (List String)}
    → ((p : Value) → (check 0 p ≡ []) ↔ Accepts p)
    → validation
      ≡ ok (
          peer_requirements values path ((first, first_words) ∷ (second, second_words) ∷ []) peers
          ++ each_indexed check 0 peers)
    → (validation ≡ ok []) ↔ Single Accepts (value_at values first) (value_at values second) peers
validated_iff values path first first_words second second_words check peers Accepts accepts e =
    let r = requirements_iff values path first first_words second second_words check peers in
    let a = value_at values first in
    let b = value_at values second in
    (
      λ h.
          Single-map (λ p. check 0 p ≡ []) Accepts a b peers (λ p. (accepts p).0)
            (r.0 (ok-injective (sym e ∙ h))),
      λ f.
          e
          ∙ ap ok (r.1 (Single-map Accepts (λ p. check 0 p ≡ []) a b peers (λ p. (accepts p).1) f)),
    )

-- The configured peers at a path, as the validators go through them.
abbrev pub Configured : Value → String → List Value → Type 0
Configured values path peers = each (or_else (value_at values path) (list [])) ≡ ok peers

module _ (values : Value) (release : String) {peers : List Value} where
  -- With the peers that the values configure for it, `validate_simulator_peer` reports no error
  -- exactly when there is none, or one while NetworkPolicy and workload TLS are on, which, if it is
  -- a mapping, chooses Pods named clavenar-simulator in a namespace that is named, is not the
  -- release's and is not that of Prometheus.
  pub validate_simulator_peer_iff :
      Configured values "networkPolicy.simulator.allowedPeers" peers
      → (validate_simulator_peer values release ≡ ok [])
        ↔ Single
            (AcceptsForeign "clavenar-simulator" release (prometheus_namespace values))
            (value_at values "networkPolicy.enabled")
            (value_at values "tlsBundle.secretName")
            peers
  unfolding validate_simulator_peer
  validate_simulator_peer_iff h =
      validated_iff values "networkPolicy.simulator.allowedPeers" "networkPolicy.enabled"
        "networkPolicy.enabled=true" "tlsBundle.secretName" "tlsBundle.secretName"
        (foreign_peer "networkPolicy.simulator.allowedPeers" "simulator" "clavenar-simulator"
          release (prometheus_namespace values))
        peers (AcceptsForeign "clavenar-simulator" release (prometheus_namespace values))
        (foreign_value_iff "networkPolicy.simulator.allowedPeers" "simulator" "clavenar-simulator"
          release (prometheus_namespace values) 0)
        (rw h)

  -- With the peers that the values configure for it, `validate_nats_demo_mint_peer` reports no error
  -- exactly when there is none, or one while NetworkPolicy and the bundled NATS are on, which, if it
  -- is a mapping, chooses Pods named clavenar-demo-mint in a namespace that is named, is not the
  -- release's and is not that of Prometheus.
  pub validate_nats_demo_mint_peer_iff :
      Configured values "networkPolicy.nats.demoMint.allowedPeers" peers
      → (validate_nats_demo_mint_peer values release ≡ ok [])
        ↔ Single
            (AcceptsForeign "clavenar-demo-mint" release (prometheus_namespace values))
            (value_at values "networkPolicy.enabled")
            (value_at values "nats.bundled.enabled")
            peers
  unfolding validate_nats_demo_mint_peer
  validate_nats_demo_mint_peer_iff h =
      validated_iff values "networkPolicy.nats.demoMint.allowedPeers" "networkPolicy.enabled"
        "networkPolicy.enabled=true" "nats.bundled.enabled" "nats.bundled.enabled=true"
        (foreign_peer "networkPolicy.nats.demoMint.allowedPeers" "demo-mint" "clavenar-demo-mint"
          release (prometheus_namespace values))
        peers (AcceptsForeign "clavenar-demo-mint" release (prometheus_namespace values))
        (foreign_value_iff "networkPolicy.nats.demoMint.allowedPeers" "demo-mint"
          "clavenar-demo-mint" release (prometheus_namespace values) 0)
        (rw h)

-- With the peers that the values configure for it, `validate_demo_reset_peer` reports no error
-- exactly when there is none, or one while NetworkPolicy and workload TLS are on, which, if it is a
-- mapping, chooses Pods named clavenar-demo-reset and no namespace.
pub validate_demo_reset_peer_iff :
    (values : Value) {peers : List Value}
    → Configured values "networkPolicy.demoReset.allowedPeers" peers
    → (validate_demo_reset_peer values ≡ ok [])
      ↔ Single
          (AcceptsLocal "clavenar-demo-reset")
          (value_at values "networkPolicy.enabled")
          (value_at values "tlsBundle.secretName")
          peers
unfolding validate_demo_reset_peer
validate_demo_reset_peer_iff values {peers} h =
    validated_iff values "networkPolicy.demoReset.allowedPeers" "networkPolicy.enabled"
      "networkPolicy.enabled=true" "tlsBundle.secretName" "tlsBundle.secretName"
      (local_peer "networkPolicy.demoReset.allowedPeers" "clavenar-demo-reset") peers
      (AcceptsLocal "clavenar-demo-reset")
      (local_value_iff "networkPolicy.demoReset.allowedPeers" "clavenar-demo-reset" 0) (rw h)
