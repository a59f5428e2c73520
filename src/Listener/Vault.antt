-- ===== src/Listener/Vault.antt =====
-- `validate_vault_test_hook`: the Helm test Pod of the bundled Vault.
pub mod Hook
use clavenar_charts.Base.{
  String, ◌<>◌, Bool, not, ◌||◌, true, List, [], ◌∷◌, ◌++◌, map, nat_eq, if◌then◌else◌,
}
use clavenar_charts.Base.Lists.{length, is_empty, contains}
use clavenar_charts.Base.Text.{split, strip}
use clavenar_charts.Base.Result.{Result, ok, ◌>>=◌, keep_if, gather, traverse, any_of}
use clavenar_charts.Value.{Value, str, dict, Fields, end, list, num, ◌▸◌, ℤ, negsuc, int}
use clavenar_charts.Value.Equality.{py_eq}
use clavenar_charts.Value.Access.{truthy, get, get_or, each, or_else}
use clavenar_charts.Value.Number.{to_int}
use clavenar_charts.Value.Print.{text_of, decimal}
use clavenar_charts.Listener.Values.{value_at}
use clavenar_charts.Listener.Selectors.{items_of_dict, pod_selector_matches}
use clavenar_charts.Listener.Peers.{complain}
use clavenar_charts.Listener.Rendered.{is_document, has_name, get_path}

abbrev pub expected_label : Value
expected_label = dict (("clavenar.io/network-client", str "vault-server-test") ▸ end)

-- The hooks that the annotation of a Pod names.
unfoldable pub hook_tokens : Value → Result (List String)
hook_tokens metadata = do
  annotations ← get metadata "annotations"
  hook ← get_or (or_else annotations (dict end)) "helm.sh/hook" (str "")
  ok (map strip (split (text_of hook) ","))

-- The values of `VAULT_ADDR` in all containers.
unfoldable pub vault_addresses : Value → Result (List Value)
vault_addresses pod = do
  spec ← get_or pod "spec" (dict end)
  raw ← get_or spec "containers" (list [])
  containers ← each raw
  gather
      (λ container. do
        raw_env ← get_or container "env" (list [])
        entries ← each raw_env
        chosen ← keep_if (has_name "VAULT_ADDR") entries
        traverse (λ entry. get entry "value") chosen)
      containers

-- `pod_selector_matches(selector, labels)`, where the labels of a Pod must be a mapping.
unfoldable pub selects : Value → Value → Result Bool
selects selector labels = items_of_dict labels >>= λ fs. pod_selector_matches selector fs

-- The errors about the labels of the Vault server's Pods, of which there must be one kind.
unfoldable pub server_errors : Value → List Value → Result (List String)
server_errors selector (labels ∷ []) = selects selector labels >>= λ b.
    ok (complain b "Vault test peer selector also matches the Vault server Pod")
server_errors selector servers = ok (
    ("bundled Vault must render exactly one server StatefulSet; found " <> decimal (length servers))
    ∷ [])

unfoldable pub server_labels : List Value → String → Result (List Value)
server_labels docs release = do
  servers ← keep_if (is_document "StatefulSet" (release <> "-vault")) docs
  traverse (λ doc. get_path doc ("spec" ∷ "template" ∷ "metadata" ∷ "labels" ∷ [])) servers

-- An ingress rule opens the Vault API port to the peer.
unfoldable pub opens_vault : Value → Value → Result Bool
opens_vault expected_peer entry = do
  raw_ports ← get_or entry "ports" (list [])
  ports ← each raw_ports
  on_port ←
      any_of
        (λ port. get_or port "port" (int (negsuc 0)) >>= λ raw.
          (to_int raw >>= λ n. ok (py_eq (int n) (num 8200))))
        ports
  if not on_port then ok on_port else do
    raw_sources ← get_or entry "from" (list [])
    sources ← each raw_sources
    any_of (λ source. ok (py_eq source expected_peer)) sources

-- Some ingress rule of the Vault's policy opens the API port to the peer.
unfoldable pub is_reachable : Fields → String → Value → Result Bool
is_reachable policies release expected_peer = do
  policy ← get_or (dict policies) (release <> "-vault") (dict end)
  raw ← get_or policy "ingress" (list [])
  ingress ← each raw
  any_of (opens_vault expected_peer) ingress

unfoldable pub governed_peer : Value → Result Value
governed_peer matrix = do
  selectors ← get_or matrix "peerSelectors" (dict end)
  get selectors "vault-server-test"

-- The peer's selector selects the labels.
unfoldable pub is_governed : Value → Value → Result Bool
is_governed selector labels =
    if truthy selector then selects selector labels else ok (truthy selector)

-- The errors about the test Pod itself.
unfoldable pub pod_errors : Value → Value → Value → String → String → Result (List String)
pod_errors test metadata labels release namespace = do
  tokens ← hook_tokens metadata
  addresses ← vault_addresses test
  let wanted = list (str ("http://" <> release <> "-vault." <> namespace <> ".svc:8200") ∷ [])
  ok (
      complain (not (py_eq labels expected_label))
        ("Vault test Pod labels " <> text_of labels <> " != " <> text_of expected_label)
      ++ complain (not (contains tokens "test")) "Vault test Pod is not a Helm test hook"
      ++ complain (not (py_eq (list addresses) wanted))
          ("Vault test Pod VAULT_ADDR " <> text_of (list addresses) <> " != " <> text_of wanted))

-- The errors about the way from the test Pod to the Vault.
unfoldable pub path_errors : Value → List Value → String → Fields → Value → Result (List String)
path_errors matrix docs release policies labels = do
  expected_peer ← governed_peer matrix
  selector ← get_or (or_else expected_peer (dict end)) "podSelector" (dict end)
  governed ← is_governed selector labels
  servers ← server_labels docs release
  server ← server_errors selector servers
  reachable ← is_reachable policies release expected_peer
  ok (
      complain (not governed) "Vault test Pod does not match its exact governed peer selector"
      ++ server
      ++ complain (not reachable)
          "Vault test Pod has no exact NetworkPolicy path to Vault API port 8200")

-- The errors about the test Pods, of which there must be one.
unfoldable pub hook_errors :
    Value → List Value → String → String → Fields → List Value → Result (List String)
hook_errors matrix docs release namespace policies (test ∷ []) = do
  metadata ← get_or test "metadata" (dict end)
  raw_labels ← get metadata "labels"
  pod ← pod_errors test metadata (or_else raw_labels (dict end)) release namespace
  path ← path_errors matrix docs release policies (or_else raw_labels (dict end))
  ok (pod ++ path)
hook_errors matrix docs release namespace policies tests =
    ok (("bundled Vault must render exactly one test Pod; found " <> decimal (length tests)) ∷ [])

unfoldable pub validate_vault_test_hook :
    Value → Value → List Value → String → String → Fields → Result (List String)
validate_vault_test_hook matrix values docs release namespace policies = do
  tests ← keep_if (is_document "Pod" (release <> "-vault-server-test")) docs
  if not (truthy (value_at values "vault.bundled.enabled"))
      then ok (
          complain (not (is_empty tests))
            "bundled Vault test Pod rendered while bundled Vault is disabled")
      else hook_errors matrix docs release namespace policies tests
