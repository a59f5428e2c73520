-- ===== src/Listener/Console/Accepted.antt =====
-- What an accepted render of the console satisfies.
use clavenar_charts.Base.{String, ◌<>◌, ◌≡◌, true, List, [], ◌∷◌}
use clavenar_charts.Base.Result.{ok, keep_if, >>=-eq-ok, ok-injective}
use clavenar_charts.Value.{Value}
use clavenar_charts.Value.Access.{truthy}
use clavenar_charts.Listener.Values.{value_at}
use clavenar_charts.Listener.Errors.{<+>-nil}
use clavenar_charts.Listener.Rendered.{is_document, get_path}
use clavenar_charts.Listener.Workload.{containers_named}
use clavenar_charts.Listener.Workload.Accepted.{HasPorts, HasProbes, probes_errors-HasProbes}
use clavenar_charts.Listener.Console.Trust.{secret_errors}
use clavenar_charts.Listener.Console.{
  console_ports, scrape_errors, console_container_errors, console_errors, validate_console_contract,
}
use clavenar_charts.Listener.Console.Governed.{
  HasGovernedEnv, IsScraped, HasSecrets, ports_lem, env_lem, scrape_lem, secrets_lem,
}

-- The rendered console.
pub record IsConsole (values : Value) (docs : List Value) (release : String) (app_version : Value)
    : Type 0 where
  pub deployment : Value
  pub pod_spec : Value
  pub container : Value
  pub one : keep_if (is_document "Deployment" (release <> "-console")) docs ≡ ok (deployment ∷ [])
  pub pod_lem : get_path deployment ("spec" ∷ "template" ∷ "spec" ∷ []) ≡ ok pod_spec
  pub single : containers_named "console" pod_spec ≡ ok (container ∷ [])
  pub ports :
      HasPorts (console_ports values (value_at values "services.console.auth.mode")) container
  pub environment : HasGovernedEnv values release app_version container
  pub probes : HasProbes 9185 container
  pub scraped : IsScraped deployment
  pub secrets : HasSecrets values pod_spec container

container_lem :
    (values : Value) (docs : List Value) (release : String)
    (app_version deployment pod_spec : Value) (containers : List Value)
    → keep_if (is_document "Deployment" (release <> "-console")) docs ≡ ok (deployment ∷ [])
    → get_path deployment ("spec" ∷ "template" ∷ "spec" ∷ []) ≡ ok pod_spec
    → containers_named "console" pod_spec ≡ ok containers
    → console_container_errors values release app_version deployment pod_spec containers ≡ ok []
    → IsConsole values docs release app_version
unfolding console_container_errors
container_lem values docs release app_version deployment pod_spec [] one pod found h =
    cc (ok-injective h)
container_lem values docs release app_version deployment pod_spec (c ∷ d ∷ cs) one pod found h =
    cc (ok-injective h)
container_lem values docs release app_version deployment pod_spec (container ∷ []) one pod found h =
    let (p1, h1) = <+>-nil _ _ h in
    let (p2, h2) = <+>-nil _ _ h1 in
    let (p3, h3) = <+>-nil _ _ h2 in
    let (p4, p5) =
      <+>-nil (scrape_errors deployment) (secret_errors values pod_spec container) h3 in
    record {
      deployment = deployment;
      pod_spec = pod_spec;
      container = container;
      one = one;
      pod_lem = pod;
      single = found;
      ports = ports_lem values container p1;
      environment = env_lem values release app_version container p2;
      probes = probes_errors-HasProbes "console" _ 9185 container p3;
      scraped = scrape_lem deployment p4;
      secrets = secrets_lem values pod_spec container p5;
    }

errors_lem :
    (values : Value) (docs : List Value) (release : String) (app_version : Value)
    (deployments : List Value)
    → keep_if (is_document "Deployment" (release <> "-console")) docs ≡ ok deployments
    → console_errors values release app_version deployments ≡ ok []
    → IsConsole values docs release app_version
unfolding console_errors
errors_lem values docs release app_version [] found h = cc (ok-injective h)
errors_lem values docs release app_version (d ∷ e ∷ ds) found h = cc (ok-injective h)
errors_lem values docs release app_version (deployment ∷ []) found h =
    let (pod_spec, h1', h1) =
      >>=-eq-ok (get_path deployment ("spec" ∷ "template" ∷ "spec" ∷ [])) _ h in
    let (containers, h2', h2) = >>=-eq-ok (containers_named "console" pod_spec) _ h1 in
    container_lem values docs release app_version deployment pod_spec containers found h1' h2' h2

-- Where the values enable the console and its validator reports nothing, the render has one
-- Deployment of it with one container of its name: its named ports are exactly those of the
-- authentication mode; its governed variables are exactly those that the values and the versions
-- give, with none repeated and one release version; the bearer of operator decisions stands once
-- under operator mTLS and not otherwise; probes and Prometheus go to the diagnostics port 9185; the
-- workload certificate is, under workload TLS, projected from its Secret at mode 0440, with the public
-- CA and the console's certificate and key alone, into a bounded memory volume, and mounted read-only,
-- and is absent otherwise; and the trust in operators is projected and mounted read-only under operator mTLS and
-- absent otherwise.
pub validate_console_contract-IsConsole :
    (values : Value) (docs : List Value) (release : String) (app_version : Value)
    → truthy (value_at values "services.console.enabled") ≡ true
    → validate_console_contract values docs release app_version ≡ ok []
    → IsConsole values docs release app_version
unfolding validate_console_contract
validate_console_contract-IsConsole values docs release app_version enabled h =
    let (deployments, found, h1) =
      >>=-eq-ok (keep_if (is_document "Deployment" (release <> "-console")) docs) _ h in
    errors_lem values docs release app_version deployments found (rw enabled at h1)
