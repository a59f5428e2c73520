-- ===== src/Readiness/Target.antt =====
-- `target_url`: the readiness URL of a dependency.
use clavenar_charts.Base.{◌<>◌, [], ◌∷◌, if◌then◌else◌}
use clavenar_charts.Base.Result.{Result, ok, ◌>>=◌}
use clavenar_charts.Value.{Value, str}
use clavenar_charts.Value.Equality.{py_eq}
use clavenar_charts.Value.Access.{truthy, item_path}
use clavenar_charts.Value.Print.{text_of, decimal}
use clavenar_charts.Value.Table.{Table, item_in}
use clavenar_charts.Readiness.Endpoint.{endpoint_port_path}

-- The URL of a service of the contract, from the target of its readiness probe.
unfoldable pub service_url : Value → Table Value → Result Value
service_url dependency services = do
  service ← item_in dependency services
  target ← item_path service ("readiness" ∷ "target" ∷ [])
  (port, path) ← endpoint_port_path target
  ok (str ("http://readiness-" <> text_of dependency <> ":" <> decimal port <> path))

unfoldable pub target_url : Value → Table Value → Value → Result Value
target_url dependency services values =
    if py_eq dependency (str "nats")
    then (do
      bundled ← item_path values ("nats" ∷ "bundled" ∷ "enabled" ∷ [])
      if truthy bundled
          then ok (str "http://readiness-nats:8222/healthz?js-enabled-only=true")
          else item_path values ("nats" ∷ "readinessUrl" ∷ []))
    else if py_eq dependency (str "vault")
    then (do
      bundled ← item_path values ("vault" ∷ "bundled" ∷ "enabled" ∷ [])
      if truthy bundled
          then ok (str "http://readiness-vault:8200/v1/sys/health")
          else item_path values ("vault" ∷ "readinessUrl" ∷ []))
    else if py_eq dependency (str "upstream-stub")
    then (do
      enabled ← item_path values ("upstreamStub" ∷ "enabled" ∷ [])
      if truthy enabled
          then (do
            port ← item_path values ("upstreamStub" ∷ "port" ∷ [])
            ok (str ("http://readiness-upstream-stub:" <> text_of port <> "/readyz")))
          else item_path values ("upstreamStub" ∷ "readinessUrl" ∷ []))
    else service_url dependency services
