-- ===== src/Listener/Vault/Hook.antt =====
-- The test Pod of an accepted render: who selects it, and what it can reach.
use clavenar_charts.Base.{
  String, ◌<>◌, ◌≡◌, refl, ap, ◌∙◌, true, false, List, [], ◌∷◌, Bool-cases, inl, inr, not-eq-false,
}
use clavenar_charts.Base.Lists.{append-eq-nil}
use clavenar_charts.Base.Result.{ok, keep_if, >>=-eq-ok, ok-injective}
use clavenar_charts.Value.{Value, str, dict, Fields, end, list}
use clavenar_charts.Value.Equality.{py_eq}
use clavenar_charts.Value.Access.{truthy, get, get_or, or_else}
use clavenar_charts.Listener.Values.{value_at}
use clavenar_charts.Listener.Profile.Production.{complain-nil}
use clavenar_charts.Listener.Rendered.{is_document}
use clavenar_charts.Listener.Vault.{
  expected_label, hook_tokens, vault_addresses, selects, server_errors, server_labels, is_reachable,
  governed_peer, is_governed, pod_errors, path_errors, hook_errors, validate_vault_test_hook,
}

-- The governed peer selects the Pod and not the Vault's server, and has a way to the Vault's API.
pub record HasPath (matrix : Value) (docs : List Value) (release : String) (policies : Fields)
    (labels : Value) : Type 0 where
  pub peer : Value
  pub selector : Value
  pub server : Value
  pub peer_lem : governed_peer matrix ≡ ok peer
  pub selector_lem : get_or (or_else peer (dict end)) "podSelector" (dict end) ≡ ok selector
  pub selects_pod : selects selector labels ≡ ok true
  pub one_server : server_labels docs release ≡ ok (server ∷ [])
  pub spares_server : selects selector server ≡ ok false
  pub reaches : is_reachable policies release peer ≡ ok true

is_governed_lem :
    (selector labels : Value)
    → is_governed selector labels ≡ ok true
    → selects selector labels ≡ ok true
unfolding is_governed
is_governed_lem selector labels h = elim (Bool-cases (truthy selector)) [
  | inl e ↦ rw e at h
  | inr e ↦ cc (ok-injective (rw e at h))
]

server_errors_lem :
    (selector : Value) (servers : List Value)
    → server_errors selector servers ≡ ok []
    → (server : Value) × (servers ≡ server ∷ []) × (selects selector server ≡ ok false)
unfolding server_errors
server_errors_lem selector [] h = cc (ok-injective h)
server_errors_lem selector (a ∷ b ∷ cs) h = cc (ok-injective h)
server_errors_lem selector (labels ∷ []) h =
    let (b, hb, h1) = >>=-eq-ok (selects selector labels) _ h in
    (labels, refl, hb ∙ ap ok (complain-nil b _ (ok-injective h1)))

path_errors_lem :
    (matrix : Value) (docs : List Value) (release : String) (policies : Fields) (labels : Value)
    → path_errors matrix docs release policies labels ≡ ok []
    → HasPath matrix docs release policies labels
unfolding path_errors
path_errors_lem matrix docs release policies labels h =
    let (peer, h1', h1) = >>=-eq-ok (governed_peer matrix) _ h in
    let (selector, h2', h2) =
      >>=-eq-ok (get_or (or_else peer (dict end)) "podSelector" (dict end)) _ h1 in
    let (governed, h3', h3) = >>=-eq-ok (is_governed selector labels) _ h2 in
    let (servers, h4', h4) = >>=-eq-ok (server_labels docs release) _ h3 in
    let (errors, h5', h5) = >>=-eq-ok (server_errors selector servers) _ h4 in
    let (reachable, h6', h6) = >>=-eq-ok (is_reachable policies release peer) _ h5 in
    let (front, e3) = append-eq-nil _ _ (ok-injective h6) in
    let (e1, e2) = append-eq-nil _ errors front in
    let (server, one, spared) = server_errors_lem selector servers (h5' ∙ ap ok e2) in
    record {
      peer = peer;
      selector = selector;
      server = server;
      peer_lem = h1';
      selector_lem = h2';
      selects_pod =
          is_governed_lem selector labels (h3' ∙ ap ok (not-eq-false (complain-nil _ _ e1)));
      one_server = h4' ∙ ap ok one;
      spares_server = spared;
      reaches = h6' ∙ ap ok (not-eq-false (complain-nil _ _ e3));
    }

-- The render has one test Pod, and it has a path.
pub record IsHooked (matrix : Value) (docs : List Value) (release namespace : String)
    (policies : Fields) : Type 0 where
  pub test : Value
  pub metadata : Value
  pub labels : Value
  pub addresses : List Value
  pub one : keep_if (is_document "Pod" (release <> "-vault-server-test")) docs ≡ ok (test ∷ [])
  pub metadata_lem : get_or test "metadata" (dict end) ≡ ok metadata
  pub labels_lem : get metadata "labels" ≡ ok labels
  pub labels_exact : py_eq (or_else labels (dict end)) expected_label ≡ true
  pub addresses_lem : vault_addresses test ≡ ok addresses
  pub addresses_exact :
      py_eq
        (list addresses)
        (list (str ("http://" <> release <> "-vault." <> namespace <> ".svc:8200") ∷ []))
      ≡ true
  pub path : HasPath matrix docs release policies (or_else labels (dict end))

pod_errors_lem :
    (test metadata labels : Value) (release namespace : String)
    → pod_errors test metadata labels release namespace ≡ ok []
    → (addresses : List Value) × (vault_addresses test ≡ ok addresses)
      × (py_eq labels expected_label ≡ true)
      × (py_eq
            (list addresses)
            (list (str ("http://" <> release <> "-vault." <> namespace <> ".svc:8200") ∷ []))
          ≡ true)
unfolding pod_errors
pod_errors_lem test metadata labels release namespace h =
    let (tokens, _, h1) = >>=-eq-ok (hook_tokens metadata) _ h in
    let (addresses, h2', h2) = >>=-eq-ok (vault_addresses test) _ h1 in
    let (front, e3) = append-eq-nil _ _ (ok-injective h2) in
    let (e1, _) = append-eq-nil _ _ front in
    (addresses, h2', not-eq-false (complain-nil _ _ e1), not-eq-false (complain-nil _ _ e3))

hook_errors_lem :
    (matrix : Value) (docs : List Value) (release namespace : String) (policies : Fields)
    (tests : List Value)
    → keep_if (is_document "Pod" (release <> "-vault-server-test")) docs ≡ ok tests
    → hook_errors matrix docs release namespace policies tests ≡ ok []
    → IsHooked matrix docs release namespace policies
unfolding hook_errors
hook_errors_lem matrix docs release namespace policies [] found h = cc (ok-injective h)
hook_errors_lem matrix docs release namespace policies (a ∷ b ∷ cs) found h = cc (ok-injective h)
hook_errors_lem matrix docs release namespace policies (test ∷ []) found h =
    let (metadata, h1', h1) = >>=-eq-ok (get_or test "metadata" (dict end)) _ h in
    let (labels, h2', h2) = >>=-eq-ok (get metadata "labels") _ h1 in
    let (pod, h3', h3) =
      >>=-eq-ok (pod_errors test metadata (or_else labels (dict end)) release namespace) _ h2 in
    let (path, h4', h4) =
      >>=-eq-ok (path_errors matrix docs release policies (or_else labels (dict end))) _ h3 in
    let (e1, e2) = append-eq-nil pod path (ok-injective h4) in
    let (addresses, ha, exact, addressed) =
      pod_errors_lem test metadata (or_else labels (dict end)) release namespace (h3' ∙ ap ok e1) in
    record {
      test = test;
      metadata = metadata;
      labels = labels;
      addresses = addresses;
      one = found;
      metadata_lem = h1';
      labels_lem = h2';
      labels_exact = exact;
      addresses_lem = ha;
      addresses_exact = addressed;
      path =
          path_errors_lem matrix docs release policies (or_else labels (dict end)) (h4' ∙ ap ok e2);
    }

-- Where the values enable the bundled Vault and `validate_vault_test_hook` reports nothing, the
-- render has one test Pod, with exactly its governed label and the Vault's address; the peer that
-- the matrix governs for it selects this Pod and not the one Vault server, and an ingress rule of
-- the Vault's policy opens port 8200 to that peer.
pub validate_vault_test_hook-IsHooked :
    (matrix values : Value) (docs : List Value) (release namespace : String) (policies : Fields)
    → truthy (value_at values "vault.bundled.enabled") ≡ true
    → validate_vault_test_hook matrix values docs release namespace policies ≡ ok []
    → IsHooked matrix docs release namespace policies
unfolding validate_vault_test_hook
validate_vault_test_hook-IsHooked matrix values docs release namespace policies on h =
    let (tests, found, h1) =
      >>=-eq-ok (keep_if (is_document "Pod" (release <> "-vault-server-test")) docs) _ h in
    hook_errors_lem matrix docs release namespace policies tests found (rw on at h1)
