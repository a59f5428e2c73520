-- ===== src/Listener/Policies/Sources.antt =====
-- The sources of a governed ingress rule, token by token.
use clavenar_charts.Base.{
  String, ◌≡◌, refl, sym, ap, ◌∙◌, true, false, ◌&&◌, none, some, List, [], ◌∷◌, ◌++◌, Bool-cases,
  Option-cases, inl, inr, ◌⊎◌, if◌then◌else◌, and-eq-true,
}
use mathlib.Core.Path.{subst}
use clavenar_charts.Base.Lists.{append-eq-nil}
use clavenar_charts.Base.Result.{◌>>=◌, ok, gather, >>=-eq-ok, ok-injective}
use clavenar_charts.Value.{Value, str, bool, int, null, array, nil, dict, end, field, list}
use clavenar_charts.Value.Equality.{py_eq}
use clavenar_charts.Value.Access.{truthy, get_or, item, item_at, is_in, each, or_else}
use clavenar_charts.Listener.Values.{value_at}
use clavenar_charts.Listener.Selectors.{peer, workload_selector, match_labels}
use clavenar_charts.Listener.Policies.{
  configured_path, namespace_peer, configured_peers, token_peers,
}

-- The token stands for the peers that the values configure at its path.
abbrev GivesConfigured : Value → Value → List Value → Type 0
GivesConfigured values token peers =
    (path : String) × (configured_path token ≡ some path)
    × (each (or_else (value_at values path) (list [])) ≡ ok peers)

-- Each token stands for configured peers, and the values configure none of them.
abbrev pub AreUnset : Value → List Value → Type 0
AreUnset values [] = Unit
AreUnset values (token ∷ tokens) = GivesConfigured values token [] × AreUnset values tokens

truthy-each : (v : Value) → truthy v ≡ true → each v ≡ ok [] → ⊥
truthy-each null t h = cc
truthy-each (bool b) t h = cc
truthy-each (int n) t h = cc
truthy-each (str String.[]) t h = cc
truthy-each (str (String.◌∷◌ c s)) t h = cc (ok-injective h)
truthy-each (array nil) t h = cc
truthy-each (array _) t h = cc (ok-injective h)
truthy-each (dict end) t h = cc
truthy-each (dict (field k v fs)) t h = cc (ok-injective h)

module _ (matrix values : Value) (release : String) (service : Value) where
  -- The token stands for Prometheus, whose namespace the values name.
  abbrev GivesPrometheus : Value → List Value → Type 0
  GivesPrometheus token peers =
      (py_eq token (str "prometheus") ≡ true)
      × (truthy (value_at values "networkPolicy.prometheusNamespaceLabel") ≡ true)
      × (peers ≡ namespace_peer (value_at values "networkPolicy.prometheusNamespaceLabel") ∷ [])

  -- The token stands for the configured simulator, of which there is some.
  abbrev GivesSimulator : Value → List Value → Type 0
  GivesSimulator token peers =
      (py_eq token (str "simulator") ≡ true)
      × (truthy (value_at values "networkPolicy.simulator.allowedPeers") ≡ true)
      × (each (value_at values "networkPolicy.simulator.allowedPeers") ≡ ok peers)

  -- The token stands for the Pods of the service itself, a selector of the matrix, or a service.
  abbrev GivesOne : Value → List Value → Type 0
  GivesOne token peers =
      (chosen : Value) × (peers ≡ chosen ∷ [])
      × (((py_eq token (str "vault") ≡ true)
            × (chosen ≡ match_labels (workload_selector release service)))
          ⊎ (((table : Value) × (item matrix "peerSelectors" ≡ ok table)
                × (item_at table token ≡ ok chosen))
              ⊎ ((table : Value) × (get_or matrix "peerSelectors" (dict end) ≡ ok table)
                  × (is_in token table ≡ ok false)
                  × (chosen ≡ peer release token))))

  -- What a token stands for.
  abbrev pub Gives : Value → List Value → Type 0
  Gives token peers =
      GivesPrometheus token peers
      ⊎ ((py_eq token (str "prometheus") ≡ false)
          × (GivesConfigured values token peers
              ⊎ ((configured_path token ≡ none)
                  × (GivesSimulator token peers ⊎ GivesOne token peers))))

  selected_lem :
      (token : Value) {peers : List Value}
      → (do
        selectors ← get_or matrix "peerSelectors" (dict end)
        known ← is_in token selectors
        if known
            then (do
              table ← item matrix "peerSelectors"
              chosen ← item_at table token
              ok (chosen ∷ []))
            else ok (peer release token ∷ []))
        ≡ ok peers
      → GivesOne token peers
  selected_lem token h =
      let (selectors, hs, h1) = >>=-eq-ok (get_or matrix "peerSelectors" (dict end)) _ h in
      let (known, hk, h2) = >>=-eq-ok (is_in token selectors) _ h1 in
      elim (Bool-cases known) [
        | inl on ↦
            let (table, ht, h3) = >>=-eq-ok (item matrix "peerSelectors") _ (rw on at h2) in
            let (chosen, hc, h4) = >>=-eq-ok (item_at table token) _ h3 in
            (chosen, sym (ok-injective h4), inr (inl (table, ht, hc)))
        | inr off ↦ (
          peer release token,
          sym (ok-injective (rw off at h2)),
          inr (inr (selectors, hs, hk ∙ ap ok off, refl)),
        )
      ]

  unnamed_lem :
      (token : Value) {peers : List Value}
      → configured_path token ≡ none
      → py_eq token (str "prometheus") ≡ false
      → token_peers matrix values release service token ≡ ok peers
      → GivesSimulator token peers ⊎ GivesOne token peers
  unfolding token_peers
  unnamed_lem token unset other h =
      let simulator = value_at values "networkPolicy.simulator.allowedPeers" in
      let h0 = rw (other, unset) at h in
      elim (Bool-cases (py_eq token (str "simulator") && truthy simulator)) [
        | inl on ↦ let (named, given) = and-eq-true _ _ on in inl (named, given, rw on at h0)
        | inr off ↦ elim (Bool-cases (py_eq token (str "vault"))) [
          | inl own ↦ inr (_, sym (ok-injective (rw (off, own) at h0)), inl (own, refl))
          | inr foreign ↦ inr (selected_lem token (rw (off, foreign) at h0))
        ]
      ]

  token_peers-Gives :
      (token : Value) {peers : List Value}
      → token_peers matrix values release service token ≡ ok peers
      → Gives token peers
  unfolding token_peers configured_peers
  token_peers-Gives token h = elim (Bool-cases (py_eq token (str "prometheus"))) [
    | inl on ↦
        elim (Bool-cases (truthy (value_at values "networkPolicy.prometheusNamespaceLabel"))) [
          | inl some_label ↦ inl (on, some_label, sym (ok-injective (rw (on, some_label) at h)))
          | inr no_label ↦ cc (rw (on, no_label) at h)
        ]
    | inr off ↦ elim (Option-cases (configured_path token)) [
      | inl unset ↦ inr (off, inr (unset, unnamed_lem token unset off h))
      | inr (path, found) ↦ inr (off, inl (path, found, rw (off, found) at h))
    ]
  ]

  -- The sources are what the tokens stand for, in order.
  abbrev pub AreGiven : List Value → List Value → Type 0
  AreGiven [] sources = sources ≡ []
  AreGiven (token ∷ tokens) sources =
      (here rest : List Value) × (sources ≡ here ++ rest) × Gives token here × AreGiven tokens rest

  pub gather-AreGiven :
      (tokens : List Value) {sources : List Value}
      → gather (token_peers matrix values release service) tokens ≡ ok sources
      → AreGiven tokens sources
  gather-AreGiven [] h = sym (ok-injective h)
  gather-AreGiven (token ∷ tokens) h =
      let (here, hh, h1) = >>=-eq-ok (token_peers matrix values release service token) _ h in
      let (rest, hr, h2) =
        >>=-eq-ok (gather (token_peers matrix values release service) tokens) _ h1 in
      (here, rest, sym (ok-injective h2), token_peers-Gives token hh, gather-AreGiven tokens hr)

  Gives-nil : (token : Value) → Gives token [] → GivesConfigured values token []
  Gives-nil token (inl (on, label, e)) = cc
  Gives-nil token (inr (_, inl configured)) = configured
  Gives-nil token (inr (_, inr (_, inl (on, given, e)))) = absurd (truthy-each _ given e)
  Gives-nil token (inr (_, inr (_, inr (chosen, e, how)))) = cc

  pub AreGiven-nil :
      (tokens : List Value) {sources : List Value}
      → sources ≡ []
      → AreGiven tokens sources
      → AreUnset values tokens
  AreGiven-nil [] e h = tt
  AreGiven-nil (token ∷ tokens) e (here, rest, split, gives, given) =
      let (no_here, no_rest) = append-eq-nil here rest (sym split ∙ e) in
      (Gives-nil token (subst (Gives token) no_here gives), AreGiven-nil tokens no_rest given)
