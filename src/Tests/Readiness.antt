-- ===== src/Tests/Readiness.antt =====
-- `check_dependency_readiness.py` on one application with one dependency.
use clavenar_charts.Base.{
  String, ◌<>◌, ◌≡◌, refl, true, ◌==◌, none, some, List, [], ◌∷◌, if◌then◌else◌,
}
use clavenar_charts.Base.Result.{ok}
use clavenar_charts.Value.{Value, str, dict, Fields, end, list, num, ◌▸◌, texts}
use clavenar_charts.Value.Equality.{py_eq}
use clavenar_charts.Value.Print.{decimal, text_of}
use clavenar_charts.Value.Dict.{insert}
use clavenar_charts.Value.Table.{Table, at, item_in}
use clavenar_charts.Listener.Values.{merge}
use clavenar_charts.Readiness.Endpoint.{require, port_of, path_of, endpoint_port_path}
use clavenar_charts.Readiness.Contract.{
  SourceRoot, deep_merge, verify_mirrors, verify_source_mirror, in_helm, helm_dependencies,
}
use clavenar_charts.Readiness.Contract.Merge.{deep_merge-eq-merge}
use clavenar_charts.Readiness.Contract.Mirror.{AllMirrored, verify_source_mirror_iff}
use clavenar_charts.Readiness.Target.{service_url, target_url}
use clavenar_charts.Readiness.Application.{
  verify_edges, verify_gate, verify_probes, verify_annotations, verify_application,
}
use clavenar_charts.Readiness.Application.Probes.{IsReady, verify_application_sound}

-- A service of the contract, by its port and the services it waits for.
abbrev service : String → String → List Value → Value
service name port startup_after = dict (
    ("id", str name)
    ▸ (
      "liveness",
      dict (("target", str ("http://clavenar-" <> name <> ":" <> port <> "/livez")) ▸ end),
    )
    ▸ (
      "readiness",
      dict (("target", str ("http://clavenar-" <> name <> ":" <> port <> "/readyz")) ▸ end),
    )
    ▸ ("startupAfter", list startup_after)
    ▸ end)

abbrev services : Table Value
services =
    (str "identity", service "identity" "8086" [])
    ∷ (
      str "ledger",
      service "ledger" "8083" (
          dict (("service", str "identity") ▸ ("topologies", list (texts ("helm" ∷ []))) ▸ end)
          ∷ []),
    )
    ∷ []

abbrev probe : String → Value
probe path = dict (("httpGet", dict (("path", str path) ▸ ("port", num 8083) ▸ end)) ▸ end)

abbrev gate_script : String
gate_script =
    "until wget -q -T 2 -O /dev/null http://readiness-identity:8086/readyz; do [ \"$attempt\" -ge 30 ]"

abbrev deployments : Fields
deployments =
    (
      "ledger",
      dict (
          (
            "spec",
            dict (
                (
                  "template",
                  dict (
                      (
                        "metadata",
                        dict (
                            (
                              "annotations",
                              dict (
                                  ("checksum/dependency-readiness-schema", str "a")
                                  ▸ ("checksum/dependency-readiness-fixture", str "b")
                                  ▸ end),
                            )
                            ▸ end),
                      )
                      ▸ (
                        "spec",
                        dict (
                            (
                              "containers",
                              list (
                                  dict (
                                    ("livenessProbe", probe "/livez")
                                    ▸ ("readinessProbe", probe "/readyz")
                                    ▸ end)
                                  ∷ []),
                            )
                            ▸ (
                              "initContainers",
                              list (
                                  dict (
                                    ("name", str "dependency-readiness-gate")
                                    ▸ ("args", list (texts (gate_script ∷ [])))
                                    ▸ end)
                                  ∷ []),
                            )
                            ▸ end),
                      )
                      ▸ end),
                )
                ▸ end),
          )
          ▸ end),
    )
    ▸ end

application_run : verify_application "bundled" services (dict end) deployments "ledger" ≡ ok 6
unfolding verify_application verify_probes verify_annotations verify_gate verify_edges
    helm_dependencies in_helm target_url service_url endpoint_port_path port_of path_of require
    item_in at py_eq text_of decimal
application_run = refl

verify_application_sound_example : IsReady services (dict end) deployments "ledger" 6
verify_application_sound_example =
    verify_application_sound "bundled" services (dict end) deployments "ledger" 6 application_run

abbrev policies : List Value
policies =
    dict (
      ("kind", str "NetworkPolicy")
      ▸ ("metadata", dict (("name", str "readiness-identity") ▸ end))
      ▸ (
        "spec",
        dict (
            (
              "ingress",
              list (
                  dict (
                    (
                      "from",
                      list (
                          dict (
                            (
                              "podSelector",
                              dict (
                                  (
                                    "matchLabels",
                                    dict (("app.kubernetes.io/component", str "brain") ▸ end),
                                  )
                                  ▸ end),
                            )
                            ▸ end)
                          ∷ []),
                    )
                    ▸ ("ports", list (dict (("port", num 8086) ▸ end) ∷ []))
                    ▸ end)
                  ∷ []),
            )
            ▸ end),
      )
      ▸ end)
    ∷ []

abbrev callers : List (String × String)
callers = ("identity", "brain") ∷ []

abbrev root : SourceRoot
root = record {
  name = "clavenar-specs";
  file_at = λ path. if path == "contracts/readiness.v1.json" then some "{}" else none;
}

abbrev files : List (String × String)
files = ("readiness.v1.json", "{}") ∷ []

verify_source_mirror_iff_example : AllMirrored root files
unfolding verify_source_mirror verify_mirrors require
verify_source_mirror_iff_example = ((verify_source_mirror_iff root true files 1).0 refl).1

abbrev base : Fields
base = ("nats", dict (("bundled", str "on") ▸ ("port", num 4222) ▸ end)) ▸ end

abbrev over : Fields
over = ("nats", dict (("port", num 4333) ▸ end)) ▸ ("vault", dict end) ▸ end

deep_merge-eq-merge_example : dict (deep_merge base over) ≡ merge (dict base) (dict over)
deep_merge-eq-merge_example = deep_merge-eq-merge base over

merged_run :
    deep_merge base over
    ≡ ("nats", dict (("bundled", str "on") ▸ ("port", num 4333) ▸ end)) ▸ ("vault", dict end) ▸ end
unfolding deep_merge insert
merged_run = refl
