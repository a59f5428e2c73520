-- ===== src/Nats/Repository.antt =====
-- `check_repository` and `main`: the chart's values and its bundled render against the contract.
pub mod Gate
use clavenar_charts.Base.{ℕ, String, ◌<>◌, Bool, true, false, not, ◌&&◌, ◌||◌, Option, none, some}
use clavenar_charts.Base.{List, [], ◌∷◌, ◌++◌, ◌==◌, nat_eq, if◌then◌else◌}
use clavenar_charts.Base.Lists.{length, filter, is_empty, all}
use clavenar_charts.Base.Text.{has_infix, has_prefix, remove_prefix}
use clavenar_charts.Base.Result.{
  Result, ok, raise, ◌>>=◌, ◌>>◌, Exception, key_error, type_error, index_error, value_error,
  contract_error, traverse, keep_if, any_of, find_of,
}
use clavenar_charts.Value.{Value, null, bool, str, dict, end, field, list, num, ◌▸◌, texts, Fields}
use clavenar_charts.Value.Dict.{insert}
use clavenar_charts.Value.Equality.{py_eq, member}
use clavenar_charts.Value.Access.{
  truthy, get, get_or, item, item_path, first, each, len, hashed, as_text, is_dict,
}
use clavenar_charts.Value.Table.{Table, at, table_by}
use clavenar_charts.Nats.Permissions.{expected_authorization}
use clavenar_charts.Nats.Documents.{
  fail, fail_if, document_named, require_document, authorization_from_nats_config,
}

abbrev pub chart_clients : List Value
chart_clients =
    texts
      ("assurance" ∷ "deep-review" ∷ "hil" ∷ "identity" ∷ "ledger" ∷ "policy-engine" ∷ "proxy" ∷ [])

-- Equality of two sets.
unfoldable pub same_values : List Value → List Value → Bool
same_values xs ys = all (member ys) xs && all (member xs) ys

unfoldable pub bytes_eq : List ℕ → List ℕ → Bool
bytes_eq [] [] = true
bytes_eq (a ∷ as') (b ∷ bs) = nat_eq a b && bytes_eq as' bs
bytes_eq _ _ = false

-- What `helm template` gave: the lines of its errors, or the documents of its output.
pub data Render : Type 0 where
  failed : List String → Render
  rendered : List Value → Render

last_line : List String → Result String
last_line [] = raise index_error
last_line (line ∷ []) = ok line
last_line (_ ∷ line ∷ lines) = last_line (line ∷ lines)

-- `_render` behind the subprocess: the documents that are mappings.
unfoldable pub render : Render → Result (List Value)
unfolding last_line fail
render (failed lines) = last_line lines >>= λ line. fail "bundled render" line
render (rendered documents) = ok (filter is_dict documents)

-- What `check_repository` reads: the contract as a document and as bytes, the mirrors in sibling
-- repositories (`none` for a file that does not exist), the values of the chart, the bundled values
-- and the render.
pub record Repository : Type 0 where
  pub contract : Value
  pub contract_bytes : List ℕ
  pub mirrors : List (String × Option (List ℕ))
  pub values : Value
  pub bundled_values : Value
  pub render_result : Render

unfoldable pub check_mirrors : List ℕ → List (String × Option (List ℕ)) → Result (Unit {0})
check_mirrors bytes [] = ok tt
check_mirrors bytes ((name, none) ∷ mirrors) = check_mirrors bytes mirrors
check_mirrors bytes ((name, some mirror) ∷ mirrors) = do
  fail_if (not (bytes_eq mirror bytes)) "contract mirror" ("must be byte-identical to " <> name)
  check_mirrors bytes mirrors

-- `jetstream["enabled"] and jetstream["fileStore"]["enabled"] and …["pvc"]["enabled"]`
unfoldable pub is_persistent : Value → Result Bool
is_persistent jetstream = do
  enabled ← item jetstream "enabled"
  if not (truthy enabled) then ok false else do
    store ← item_path jetstream ("fileStore" ∷ "enabled" ∷ [])
    if not (truthy store) then ok false else do
      claim ← item_path jetstream ("fileStore" ∷ "pvc" ∷ "enabled" ∷ [])
      ok (truthy claim)

abbrev pub verify_and_map : Value
verify_and_map = dict (("verify_and_map", bool true) ▸ end)

-- The checks of values.yaml.
unfoldable pub check_values : Value → Value → Result (Unit {0})
check_values values expected = do
  actual ← item_path values ("nats" ∷ "config" ∷ "merge" ∷ "authorization" ∷ [])
  fail_if (not (py_eq actual expected)) "values authorization"
      "must equal the generated v1 permissions"
  jetstream ← item_path values ("nats" ∷ "config" ∷ "jetstream" ∷ [])
  persistent ← is_persistent jetstream
  fail_if (not persistent) "values persistence" "bundled JetStream must use a persistent PVC"
  tls ← item_path values ("nats" ∷ "config" ∷ "nats" ∷ "tls" ∷ "merge" ∷ [])
  fail_if (not (py_eq tls verify_and_map)) "values TLS" "must use only verify_and_map"

-- The checks of the rendered ConfigMap.
unfoldable pub check_config : (String → Result Value) → List Value → Value → Result (Unit {0})
check_config raw_decode documents expected = do
  found ← document_named "ConfigMap" "smoke-nats-config" documents
  config_map ← elim found [
    | none ↦ fail "bundled render" "NATS ConfigMap is missing"
    | some document ↦ ok document
  ]
  raw ← item_path config_map ("data" ∷ "nats.conf" ∷ [])
  text ← as_text raw
  authorization ← authorization_from_nats_config raw_decode text
  fail_if (not (py_eq authorization expected)) "rendered NATS config"
      "authorization permission drift"
  fail_if (not (has_infix text "\"verify_and_map\": true") || has_infix text "\"verify\": true")
      "rendered NATS config" "certificate mapping drift"
  fail_if (not (has_infix text "\"store_dir\": \"/data\"")) "rendered NATS config"
      "persistent JetStream store drift"

-- The checks of the rendered StatefulSet: one claim, for the JetStream store.
unfoldable pub check_stateful_set : List Value → Result (Unit {0})
check_stateful_set documents = do
  stateful_set ← require_document "StatefulSet" "smoke-nats" documents
  spec ← item stateful_set "spec"
  claims ← get_or spec "volumeClaimTemplates" (list [])
  count ← len claims
  exact ←
      (if nat_eq count 1
        then (do
          claim ← first claims
          name ← item_path claim ("metadata" ∷ "name" ∷ [])
          ok (py_eq name (str "smoke-nats-js")))
        else ok false)
  fail_if (not exact) "bundled NATS StatefulSet" "must retain one exact JetStream PVC"

abbrev pub client_ports : Value
client_ports = list (dict (("protocol", str "TCP") ▸ ("port", num 4222) ▸ end) ∷ [])

-- The component label that a peer selects.
unfoldable pub peer_component : Value → Result Value
peer_component peer = do
  pod_selector ← get_or peer "podSelector" (dict end)
  labels ← get_or pod_selector "matchLabels" (dict end)
  component ← get labels "app.kubernetes.io/component"
  hashed component

-- `rule.get("ports") == [{"protocol": "TCP", "port": 4222}]`
unfoldable pub is_broker_rule : Value → Result Bool
is_broker_rule rule = get rule "ports" >>= λ ports. ok (py_eq ports client_ports)

unfoldable pub admits_chart_clients : Value → Result Bool
admits_chart_clients rule = do
  raw ← get_or rule "from" (list [])
  peers ← each raw
  components ← traverse peer_component peers
  ok (same_values components chart_clients)

unfoldable pub has_sources : Value → Value → Result Bool
has_sources sources rule = get rule "from" >>= λ actual. ok (py_eq actual sources)

-- A rule with these sources on other ports than the client port.
unfoldable pub leaks : Value → Value → Result Bool
leaks sources rule = do
  same ← has_sources sources rule
  if same then (is_broker_rule rule >>= λ broker. ok (not broker)) else ok false

-- The checks of the ingress rules of the broker's NetworkPolicy; the bundled values say who the demo
-- peers are.
unfoldable pub check_ingress : Value → List Value → Result (Unit {0})
check_ingress bundled_values ingress = do
  broker_rules ← keep_if is_broker_rule ingress
  fail_if (is_empty broker_rules) "NATS NetworkPolicy" "exact TCP 4222 rule is missing"
  core_rules ← keep_if admits_chart_clients broker_rules
  fail_if (not (nat_eq (length core_rules) 1)) "NATS NetworkPolicy"
      "peers must equal the seven chart clients"
  demo_peers ←
      item_path bundled_values ("networkPolicy" ∷ "nats" ∷ "demoMint" ∷ "allowedPeers" ∷ [])
  demo_rules ← keep_if (has_sources demo_peers) broker_rules
  fail_if (not (nat_eq (length demo_rules) 1)) "NATS NetworkPolicy"
      "must admit the exact external demo-mint selector only on TCP 4222"
  leaked ← any_of (leaks demo_peers) ingress
  fail_if leaked "NATS NetworkPolicy" "external demo-mint selector reaches a non-client listener"

-- `environment.get(name, {}).get("value")`
unfoldable pub env_value : String → Table Value → Result Value
env_value name environment = elim (at (str name) environment) [
  | none ↦ ok null
  | some entry ↦ get entry "value"
]

-- The round of the loop over the Deployments: the name of a client of the broker.
unfoldable pub check_deployment : String → Value → Result (List String)
check_deployment name deployment = do
  raw ← item_path deployment ("spec" ∷ "template" ∷ "spec" ∷ "containers" ∷ [])
  containers ← each raw
  found ← find_of (λ container. get container "name" >>= λ n. ok (py_eq n (str name))) containers
  elim found [
    | none ↦ ok []
    | some container ↦ do
      raw_env ← get_or container "env" (list [])
      entries ← each raw_env
      environment ← table_by "name" entries
      elim (at (str "NATS_URL") environment) [
        | none ↦ do
          fail_if
              ((name == "brain" || name == "console")
                && elim (at (str "NATS_INBOX_PREFIX") environment) [ none ↦ false | some _ ↦ true ])
              name "unused inbox authority must remain absent"
          ok []
        | some _ ↦ do
          prefix ← env_value "NATS_INBOX_PREFIX" environment
          fail_if (not (py_eq prefix (str ("_INBOX.clavenar." <> name)))) name
              "private inbox prefix drift"
          certificate ← env_value "NATS_TLS_CERT_PATH" environment
          fail_if (not (py_eq certificate (str ("/certs/service-" <> name <> ".crt")))) name
              "must use its exact workload certificate"
          ok (name ∷ [])
      ]
  ]

-- The Deployments of the release, by their names without its prefix.
unfoldable pub deployments_of : Fields → List Value → Result Fields
deployments_of acc [] = ok acc
deployments_of acc (document ∷ documents) = do
  kind ← get document "kind"
  chosen ←
      (if py_eq kind (str "Deployment")
        then (do
          metadata ← get_or document "metadata" (dict end)
          name ← get_or metadata "name" (str "")
          text ← as_text name
          ok (if has_prefix text "smoke-" then some (remove_prefix text "smoke-") else none))
        else ok none)
  deployments_of (elim chosen [ none ↦ acc | some name ↦ insert name document acc ]) documents

unfoldable pub clients_of : Fields → Result (List String)
clients_of end = ok []
clients_of (field name deployment rest) = do
  here ← check_deployment name deployment
  later ← clients_of rest
  ok (here ++ later)

-- The checks of the broker's NetworkPolicy.
unfoldable pub check_network : Value → List Value → Result (Unit {0})
check_network bundled_values documents = do
  network_policy ← require_document "NetworkPolicy" "smoke-nats" documents
  spec ← item network_policy "spec"
  raw_ingress ← get_or spec "ingress" (list [])
  ingress ← each raw_ingress
  check_ingress bundled_values ingress

-- The number of Deployments that use the broker, which must be the chart's clients.
unfoldable pub check_clients : List Value → Result ℕ
check_clients documents = do
  deployments ← deployments_of end documents
  clients ← clients_of deployments
  fail_if (not (same_values (texts clients) chart_clients)) "rendered clients"
      "must equal the seven chart clients"
  ok (length clients)

-- The checks of the rendered documents.
unfoldable pub check_documents : (String → Result Value) → Value → Value → List Value → Result ℕ
check_documents raw_decode bundled_values expected documents = do
  check_config raw_decode documents expected
  check_stateful_set documents
  check_network bundled_values documents
  check_clients documents

-- The counts of users and of chart clients.
unfoldable pub check_repository : (String → Result Value) → Repository → Result (ℕ × ℕ)
check_repository raw_decode repository = do
  version ← get repository.contract "contract"
  fail_if (not (py_eq version (str "clavenar.nats-authorization/v1"))) "contract"
      "unexpected version"
  check_mirrors repository.contract_bytes repository.mirrors
  expected ← expected_authorization repository.contract
  check_values repository.values expected
  documents ← render repository.render_result
  clients ← check_documents raw_decode repository.bundled_values expected documents
  users ← item expected "users"
  user_count ← len users
  ok (user_count, clients)

-- How the process ends: with a status, or with the traceback of an exception.
pub data Outcome : Type 0 where
  status : ℕ → Outcome
  traceback : Exception → Outcome

-- `except (ContractError, OSError, KeyError, TypeError, ValueError)`
unfoldable pub is_caught : Exception → Bool
is_caught (key_error _) = true
is_caught type_error = true
is_caught (value_error _) = true
is_caught (contract_error _) = true
is_caught _ = false

-- `main` without `--write-values`.
unfoldable pub main : (String → Result Value) → Repository → Outcome
main raw_decode repository = elim (check_repository raw_decode repository) [
  | ok _ ↦ status 0
  | raise e ↦ if is_caught e then status 1 else traceback e
]
