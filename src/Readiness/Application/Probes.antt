-- ===== src/Readiness/Application/Probes.antt =====
-- What an application satisfies when its checks pass.
use clavenar_charts.Base.{
  ℕ, ◌+◌, String, ◌<>◌, ◌≡◌, refl, sym, ap, ◌∙◌, Bool, true, false, not, List, [], ◌∷◌, arith, ◌==◌,
  if◌then◌else◌,
}
use clavenar_charts.Base.Lists.{length, is_empty}
use clavenar_charts.Base.Result.{Result, ◌>>◌, ok, >>=-eq-ok, ok-injective}
use clavenar_charts.Value.{Value, str, dict, Fields}
use clavenar_charts.Value.Equality.{py_eq}
use clavenar_charts.Value.Access.{item, item_path, first, is_in}
use clavenar_charts.Value.Table.{Table, item_in}
use clavenar_charts.Readiness.Endpoint.{require, endpoint_port_path}
use clavenar_charts.Readiness.Contract.{helm_dependencies}
use clavenar_charts.Readiness.Contract.Mirror.{require-ok}
use clavenar_charts.Readiness.Application.{
  http_get, verify_gate, verify_probes, verify_annotations, verify_application,
}
use clavenar_charts.Readiness.Application.Gate.{IsGated, verify_gate_lem}

-- The probes of the container are exactly the targets of the contract, and liveness is not readiness.
pub record HasProbes (contract container : Value) : Type 0 where
  pub live_target : Value
  pub ready_target : Value
  pub live_port : ℕ
  pub ready_port : ℕ
  pub live_path : String
  pub ready_path : String
  pub live_probe : Value
  pub ready_probe : Value
  pub live_lem : item_path contract ("liveness" ∷ "target" ∷ []) ≡ ok live_target
  pub ready_lem : item_path contract ("readiness" ∷ "target" ∷ []) ≡ ok ready_target
  pub live_endpoint : endpoint_port_path live_target ≡ ok (live_port, live_path)
  pub ready_endpoint : endpoint_port_path ready_target ≡ ok (ready_port, ready_path)
  pub live_read : item_path container ("livenessProbe" ∷ "httpGet" ∷ []) ≡ ok live_probe
  pub ready_read : item_path container ("readinessProbe" ∷ "httpGet" ∷ []) ≡ ok ready_probe
  pub live_exact : py_eq live_probe (http_get live_port live_path) ≡ true
  pub ready_exact : py_eq ready_probe (http_get ready_port ready_path) ≡ true
  pub distinct : (live_path == ready_path) ≡ false

verify_probes_lem :
    (scope : String) (contract container : Value) {u : Unit {0}}
    → verify_probes scope contract container ≡ ok u
    → HasProbes contract container
unfolding verify_probes
verify_probes_lem scope contract container h =
    let (lt, hlt, h1) = >>=-eq-ok (item_path contract ("liveness" ∷ "target" ∷ [])) _ h in
    let (l, hl, h2) = >>=-eq-ok (endpoint_port_path lt) _ h1 in
    let (rt, hrt, h3) = >>=-eq-ok (item_path contract ("readiness" ∷ "target" ∷ [])) _ h2 in
    let (r, hr, h4) = >>=-eq-ok (endpoint_port_path rt) _ h3 in
    let (lp, hlp, h5) = >>=-eq-ok (item_path container ("livenessProbe" ∷ "httpGet" ∷ [])) _ h4 in
    let (_, q1, h6) = >>=-eq-ok (require (py_eq lp (http_get l.0 l.1)) _) _ h5 in
    let (rp, hrp, h7) = >>=-eq-ok (item_path container ("readinessProbe" ∷ "httpGet" ∷ [])) _ h6 in
    let (_, q2, h8) = >>=-eq-ok (require (py_eq rp (http_get r.0 r.1)) _) _ h7 in
    record {
      live_target = lt;
      ready_target = rt;
      live_port = l.0;
      ready_port = r.0;
      live_path = l.1;
      ready_path = r.1;
      live_probe = lp;
      ready_probe = rp;
      live_lem = hlt;
      ready_lem = hrt;
      live_endpoint = hl;
      ready_endpoint = hr;
      live_read = hlp;
      ready_read = hrp;
      live_exact = require-ok _ _ q1;
      ready_exact = require-ok _ _ q2;
      distinct = not-eq-true (require-ok (not (l.1 == r.1)) _ h8);
    }
  where
    not-eq-true : {b : Bool} → not b ≡ true → b ≡ false
    not-eq-true e = ground arith

-- The Pod is annotated with the checksums of the contract's two documents.
pub record HasChecksums (pod : Value) : Type 0 where
  pub annotations : Value
  pub annotations_lem : item_path pod ("metadata" ∷ "annotations" ∷ []) ≡ ok annotations
  pub schema : is_in (str "checksum/dependency-readiness-schema") annotations ≡ ok true
  pub fixture : is_in (str "checksum/dependency-readiness-fixture") annotations ≡ ok true

both_lem :
    (first_holds : Bool) (second : Result Bool)
    → (if first_holds then second else ok false) ≡ ok true
    → (first_holds ≡ true) × (second ≡ ok true)
both_lem true second h = (refl, h)
both_lem false second h = cc (ok-injective h)

verify_annotations_lem :
    (scope : String) (pod : Value) {u : Unit {0}}
    → verify_annotations scope pod ≡ ok u
    → HasChecksums pod
unfolding verify_annotations
verify_annotations_lem scope pod h =
    let (annotations, ha, h1) = >>=-eq-ok (item_path pod ("metadata" ∷ "annotations" ∷ [])) _ h in
    let (schema, hs, h2) =
      >>=-eq-ok (is_in (str "checksum/dependency-readiness-schema") annotations) _ h1 in
    let (both, hb, h3) =
      >>=-eq-ok
        (if schema
          then is_in (str "checksum/dependency-readiness-fixture") annotations
          else ok false)
        _ h2 in
    let (on, hf) = both_lem schema _ (hb ∙ ap ok (require-ok both _ h3)) in
    record { annotations = annotations; annotations_lem = ha; schema = hs ∙ ap ok on; fixture = hf }

-- An application of a render that passed, with the number of its checks.
pub record IsReady (services : Table Value) (values : Value) (deployments : Fields) (name : String)
    (checks : ℕ) : Type 0 where
  pub contract : Value
  pub deployment : Value
  pub pod : Value
  pub containers : Value
  pub container : Value
  pub contract_lem : item_in (str name) services ≡ ok contract
  pub deployment_lem : item (dict deployments) name ≡ ok deployment
  pub pod_lem : item_path deployment ("spec" ∷ "template" ∷ []) ≡ ok pod
  pub containers_lem : item_path pod ("spec" ∷ "containers" ∷ []) ≡ ok containers
  pub container_lem : first containers ≡ ok container
  pub probes : HasProbes contract container
  pub checksums : HasChecksums pod
  pub dependencies : List Value
  pub dependencies_lem : helm_dependencies contract ≡ ok dependencies
  pub gated : is_empty dependencies ≡ false → IsGated pod services values dependencies
  pub checks_lem : checks ≡ 5 + length dependencies

gated_lem :
    (scope : String) (pod : Value) (services : Table Value) (values : Value)
    (dependencies : List Value) {checks : ℕ}
    → (if is_empty dependencies
        then ok 5
        else do verify_gate scope pod services values dependencies; ok (5 + length dependencies))
      ≡ ok checks
    → (is_empty dependencies ≡ false → IsGated pod services values dependencies)
      × (checks ≡ 5 + length dependencies)
gated_lem scope pod services values [] h = (λ e. cc, sym (ok-injective h) ∙ omega arith)
gated_lem scope pod services values (d ∷ ds) h =
    let (_, hg, h1) = >>=-eq-ok (verify_gate scope pod services values (d ∷ ds)) _ h in
    (λ e. verify_gate_lem scope pod services values (d ∷ ds) hg, sym (ok-injective h1))

-- If the checks of an application pass, its probes are exactly the endpoints of the contract and
-- distinct, its Pod is annotated with both checksums, and if it has Helm dependencies, the Pod has an init container named
-- dependency-readiness-gate, and the script that is the first argument of the first such container
-- has bounded probes and waits for the readiness URL of each dependency; the checks are five and one
-- for each dependency.
pub verify_application_sound :
    (case : String) (services : Table Value) (values : Value) (deployments : Fields) (name : String)
    (checks : ℕ)
    → verify_application case services values deployments name ≡ ok checks
    → IsReady services values deployments name checks
unfolding verify_application
verify_application_sound case services values deployments name checks h =
    let scope : String = case <> "/" <> name in
    let (contract, h1', h1) = >>=-eq-ok (item_in (str name) services) _ h in
    let (deployment, h2', h2) = >>=-eq-ok (item (dict deployments) name) _ h1 in
    let (pod, h3', h3) = >>=-eq-ok (item_path deployment ("spec" ∷ "template" ∷ [])) _ h2 in
    let (containers, h4', h4) = >>=-eq-ok (item_path pod ("spec" ∷ "containers" ∷ [])) _ h3 in
    let (container, h5', h5) = >>=-eq-ok (first containers) _ h4 in
    let (_, h6', h6) = >>=-eq-ok (verify_probes scope contract container) _ h5 in
    let (_, h7', h7) = >>=-eq-ok (verify_annotations scope pod) _ h6 in
    let (dependencies, h8', h8) = >>=-eq-ok (helm_dependencies contract) _ h7 in
    let (gated, count) = gated_lem scope pod services values dependencies h8 in
    record {
      contract = contract;
      deployment = deployment;
      pod = pod;
      containers = containers;
      container = container;
      contract_lem = h1';
      deployment_lem = h2';
      pod_lem = h3';
      containers_lem = h4';
      container_lem = h5';
      probes = verify_probes_lem scope contract container h6';
      checksums = verify_annotations_lem scope pod h7';
      dependencies = dependencies;
      dependencies_lem = h8';
      gated = gated;
      checks_lem = count;
    }
