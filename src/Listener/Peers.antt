-- ===== src/Listener/Peers.antt =====
-- The validators of configured peers: `validate_exact_positive_peers` and those of the ledger's
-- trusted proxy, the demo mint, the simulator and the demo reset. Each returns the errors that it
-- appends to the caller's list.
pub mod Foreign
pub mod Selection
use clavenar_charts.Base.{Option, ℕ, suc, String, ◌<>◌, Bool, true, false, not, ◌&&◌, ◌||◌, some}
use clavenar_charts.Base.{List, [], ◌∷◌, ◌++◌, ◌==◌, ltb, if◌then◌else◌}
use clavenar_charts.Base.Lists.{length}
use clavenar_charts.Base.Result.{Result, ok, ◌>>=◌, gather}
use clavenar_charts.Value.{Value, str, dict, Fields, end, field, list}
use clavenar_charts.Value.Dict.{lookup, or_null, has_key}
use clavenar_charts.Value.Equality.{py_eq}
use clavenar_charts.Value.Access.{truthy, each, is_str, or_else}
use clavenar_charts.Value.Print.{decimal}
use clavenar_charts.Listener.Values.{value_at}
use clavenar_charts.Listener.Selectors.{name_label, namespace_label}

-- `if bad: errors.append(message)`
abbrev pub complain : Bool → String → List String
complain bad message = if bad then message ∷ [] else []

-- `path[index]`
abbrev pub at_index : String → ℕ → String
at_index path index = path <> "[" <> decimal index <> "]"

-- `for index, x in enumerate(xs)`, from an index on.
unfoldable pub each_indexed : (ℕ → Value → List String) → ℕ → List Value → List String
each_indexed check index [] = []
each_indexed check index (x ∷ xs) = check index x ++ each_indexed check (suc index) xs

-- All keys are among the two selectors.
unfoldable pub keys_are_selectors : Fields → Bool
keys_are_selectors end = true
keys_are_selectors (field k v fs) =
    (k == "podSelector" || k == "namespaceSelector") && keys_are_selectors fs

-- `all(isinstance(key, str) and isinstance(value, str) for key, value in labels.items())`
unfoldable pub labels_are_texts : Fields → Bool
labels_are_texts end = true
labels_are_texts (field k v fs) = is_str v && labels_are_texts fs

-- `{"matchLabels": {…}}` and nothing else, with labels that are texts, at least one.
unfoldable pub is_exact_selector : Value → Bool
unfolding labels_are_texts
is_exact_selector (dict (field k (dict (field l v ls)) end)) =
    k == "matchLabels" && labels_are_texts (field l v ls)
is_exact_selector _ = false

-- The errors about one configured peer. An error ends the round.
unfoldable pub exact_positive_peer : String → ℕ → Value → List String
exact_positive_peer path index (dict configured) =
    if not (keys_are_selectors configured)
    then (at_index path index <> " must use only exact positive selectors") ∷ []
    else if not (is_exact_selector (or_null (lookup "podSelector" configured)))
    then (at_index path index <> " requires non-empty podSelector.matchLabels only") ∷ []
    else if has_key "namespaceSelector" configured
    then complain (not (is_exact_selector (or_null (lookup "namespaceSelector" configured))))
        (at_index path index <> " namespaceSelector requires non-empty matchLabels only")
    else []
exact_positive_peer path index _ =
    (at_index path index <> " must use only exact positive selectors") ∷ []

unfoldable pub validate_exact_positive_peers : Value → List String → Result (List String)
validate_exact_positive_peers values paths =
    gather
      (λ path. do
        configured ← each (or_else (value_at values path) (list []))
        ok (each_indexed (exact_positive_peer path) 0 configured))
      paths

-- The dict that a key holds, and the empty dict for any other value.
unfoldable pub dict_or_empty : Option Value → Fields
dict_or_empty (some (dict labels)) = labels
dict_or_empty _ = end

-- The `matchLabels` of a selector.
unfoldable pub selector_labels : Option Value → Fields
selector_labels (some (dict selector)) = dict_or_empty (lookup "matchLabels" selector)
selector_labels _ = end

-- `configured[key].matchLabels` where both are dicts, and no labels otherwise.
unfoldable pub labels_of : String → Fields → Fields
unfolding selector_labels dict_or_empty
labels_of key configured = selector_labels (lookup key configured)

-- The Pods are chosen by the governed `app.kubernetes.io/name`.
unfoldable pub names_app : String → Fields → Bool
unfolding labels_of
names_app app configured =
    py_eq (or_null (lookup name_label (labels_of "podSelector" configured))) (str app)

-- The errors about the value of the namespace label of a peer, which must be there and be neither
-- the release's namespace nor that of Prometheus.
unfoldable pub namespace_value_errors : String → String → ℕ → String → Value → Value → List String
namespace_value_errors path what index release_namespace prometheus (str namespace) =
    if namespace == ""
    then (at_index path index
        <> " must explicitly select a non-empty namespaceSelector.matchLabels["
        <> namespace_label
        <> "]")
      ∷ []
    else complain (namespace == release_namespace)
        (what <> " namespace " <> namespace <> " must differ from the release namespace")
      ++ complain (py_eq (str namespace) prometheus)
          (what <> " namespace " <> namespace <> " must differ from the Prometheus namespace")
namespace_value_errors path what index release_namespace prometheus _ =
    (at_index path index
      <> " must explicitly select a non-empty namespaceSelector.matchLabels["
      <> namespace_label
      <> "]")
    ∷ []

-- The value of the namespace label that a peer chooses.
unfoldable pub chosen_namespace : Fields → Value
chosen_namespace configured =
    or_null (lookup namespace_label (labels_of "namespaceSelector" configured))

-- The errors about one peer of an application in another namespace.
unfoldable pub foreign_peer : String → String → String → String → Value → ℕ → Value → List String
foreign_peer path what app release_namespace prometheus index (dict configured) =
    complain (not (names_app app configured))
      (at_index path index <> " must include podSelector.matchLabels[" <> name_label <> "]=" <> app)
    ++ namespace_value_errors path what index release_namespace prometheus
        (chosen_namespace configured)
foreign_peer path what app release_namespace prometheus index _ = []

abbrev pub prometheus_namespace : Value → Value
prometheus_namespace values =
    or_else (value_at values "networkPolicy.prometheusNamespaceLabel") (str "")

unfoldable pub validate_ledger_trusted_proxy_peer : Value → String → Result (List String)
validate_ledger_trusted_proxy_peer values release_namespace = do
  let path : String = "networkPolicy.ledger.trustedProxy.allowedPeers"
  peers ← each (or_else (value_at values path) (list []))
  ok (
      each_indexed
        (foreign_peer path "website" "clavenar-website" release_namespace
          (prometheus_namespace values))
        0 peers)

-- The errors about the peers of `path` as a whole: what they require of the values, and that there
-- is one at most. `{requires}` lists the paths that must be set, with the words of the error.
unfoldable pub peer_requirements :
    Value → String → List (String × String) → List Value → List String
peer_requirements values path [] peers =
    complain (ltb 1 (length peers)) (path <> " accepts at most one exact selector")
peer_requirements values path ((needed, wording) ∷ rest) peers =
    complain (not (truthy (value_at values needed)) && ltb 0 (length peers))
      (path <> " requires " <> wording)
    ++ peer_requirements values path rest peers

unfoldable pub validate_nats_demo_mint_peer : Value → String → Result (List String)
validate_nats_demo_mint_peer values release_namespace = do
  let path : String = "networkPolicy.nats.demoMint.allowedPeers"
  peers ← each (or_else (value_at values path) (list []))
  let required =
      peer_requirements values path
        (("networkPolicy.enabled", "networkPolicy.enabled=true")
          ∷ ("nats.bundled.enabled", "nats.bundled.enabled=true")
          ∷ [])
        peers
  let single =
      foreign_peer path "demo-mint" "clavenar-demo-mint" release_namespace
        (prometheus_namespace values)
  ok (required ++ each_indexed single 0 peers)

unfoldable pub validate_simulator_peer : Value → String → Result (List String)
validate_simulator_peer values release_namespace = do
  let path : String = "networkPolicy.simulator.allowedPeers"
  peers ← each (or_else (value_at values path) (list []))
  let required =
      peer_requirements values path
        (("networkPolicy.enabled", "networkPolicy.enabled=true")
          ∷ ("tlsBundle.secretName", "tlsBundle.secretName")
          ∷ [])
        peers
  let single =
      foreign_peer path "simulator" "clavenar-simulator" release_namespace
        (prometheus_namespace values)
  ok (required ++ each_indexed single 0 peers)

-- The errors about one demo reset peer, which stays in the release's namespace.
unfoldable pub local_peer : String → String → ℕ → Value → List String
local_peer path app index (dict configured) =
    complain (has_key "namespaceSelector" configured)
      (at_index path index <> " must remain in the chart release namespace")
    ++ complain (not (names_app app configured)) (
        at_index path index
        <> " must include podSelector.matchLabels["
        <> name_label
        <> "]="
        <> app)
local_peer path app index _ = []

unfoldable pub validate_demo_reset_peer : Value → Result (List String)
validate_demo_reset_peer values = do
  let path : String = "networkPolicy.demoReset.allowedPeers"
  peers ← each (or_else (value_at values path) (list []))
  let required =
      peer_requirements values path
        (("networkPolicy.enabled", "networkPolicy.enabled=true")
          ∷ ("tlsBundle.secretName", "tlsBundle.secretName")
          ∷ [])
        peers
  ok (required ++ each_indexed (local_peer path "clavenar-demo-reset") 0 peers)
