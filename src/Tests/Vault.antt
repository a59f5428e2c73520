-- ===== src/Tests/Vault.antt =====
-- `validate_vault_test_hook` on a render with a bundled Vault.
use clavenar_charts.Base.{◌≡◌, refl, true, List, [], ◌∷◌}
use clavenar_charts.Base.Result.{ok}
use clavenar_charts.Value.{Value, str, bool, dict, Fields, end, list, num, ◌▸◌}
use clavenar_charts.Value.Equality.{py_eq}
use clavenar_charts.Value.Number.{to_int}
use clavenar_charts.Value.Print.{text_of}
use clavenar_charts.Listener.Values.{value_at, walk}
use clavenar_charts.Listener.Selectors.{labels_match, pod_selector_matches}
use clavenar_charts.Listener.Rendered.{is_document, has_name, get_path}
use clavenar_charts.Listener.Vault.{
  hook_tokens, vault_addresses, selects, server_errors, server_labels, opens_vault, is_reachable,
  governed_peer, is_governed, pod_errors, path_errors, hook_errors, validate_vault_test_hook,
}
use clavenar_charts.Listener.Vault.Hook.{IsHooked, validate_vault_test_hook-IsHooked}

abbrev test_labels : Value
test_labels = dict (("clavenar.io/network-client", str "vault-server-test") ▸ end)

abbrev test_peer : Value
test_peer = dict (("podSelector", dict (("matchLabels", test_labels) ▸ end)) ▸ end)

abbrev matrix : Value
matrix = dict (("peerSelectors", dict (("vault-server-test", test_peer) ▸ end)) ▸ end)

abbrev values : Value
values = dict (("vault", dict (("bundled", dict (("enabled", bool true) ▸ end)) ▸ end)) ▸ end)

abbrev policies : Fields
policies =
    (
      "smoke-vault",
      dict (
          (
            "ingress",
            list (
                dict (
                  ("ports", list (dict (("port", num 8200) ▸ end) ∷ []))
                  ▸ ("from", list (test_peer ∷ []))
                  ▸ end)
                ∷ []),
          )
          ▸ end),
    )
    ▸ end

abbrev docs : List Value
docs =
    dict (
      ("kind", str "Pod")
      ▸ (
        "metadata",
        dict (
            ("name", str "smoke-vault-server-test")
            ▸ ("labels", test_labels)
            ▸ ("annotations", dict (("helm.sh/hook", str "pre-install, test") ▸ end))
            ▸ end),
      )
      ▸ (
        "spec",
        dict (
            (
              "containers",
              list (
                  dict (
                    (
                      "env",
                      list (
                          dict (
                            ("name", str "VAULT_ADDR")
                            ▸ ("value", str "http://smoke-vault.clavenar.svc:8200")
                            ▸ end)
                          ∷ []),
                    )
                    ▸ end)
                  ∷ []),
            )
            ▸ end),
      )
      ▸ end)
    ∷ dict (
        ("kind", str "StatefulSet")
        ▸ ("metadata", dict (("name", str "smoke-vault") ▸ end))
        ▸ (
          "spec",
          dict (
              (
                "template",
                dict (
                    (
                      "metadata",
                      dict (("labels", dict (("app.kubernetes.io/name", str "vault") ▸ end)) ▸ end),
                    )
                    ▸ end),
              )
              ▸ end),
        )
        ▸ end)
    ∷ []

hook_run : validate_vault_test_hook matrix values docs "smoke" "clavenar" policies ≡ ok []
unfolding validate_vault_test_hook hook_errors path_errors pod_errors is_governed governed_peer
    is_reachable opens_vault server_labels server_errors selects vault_addresses hook_tokens
    get_path is_document has_name pod_selector_matches labels_match value_at walk to_int text_of
    py_eq
hook_run = refl

validate_vault_test_hook-IsHooked_example : IsHooked matrix docs "smoke" "clavenar" policies
unfolding value_at walk
validate_vault_test_hook-IsHooked_example =
    validate_vault_test_hook-IsHooked matrix values docs "smoke" "clavenar" policies refl hook_run
