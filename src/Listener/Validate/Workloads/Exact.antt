-- ===== src/Listener/Validate/Workloads/Exact.antt =====
-- What accepted workloads satisfy.
use clavenar_charts.Base.{String, ◌≡◌, sym, ap, ◌∙◌, true, false, not, List, [], map, not-eq-false}
use mathlib.Core.Path.{subst}
use clavenar_charts.Base.Result.{ok, ◌>>=◌, keep_if, gather, >>=-eq-ok, ok-injective}
use clavenar_charts.Value.{Value, int, list, ℤ}
use clavenar_charts.Value.Equality.{py_eq}
use clavenar_charts.Value.Access.{truthy, get, is_in}
use clavenar_charts.Value.{str}
use clavenar_charts.Listener.Errors.{<+>-nil, refuse-nil, All, gather-All}
use clavenar_charts.Listener.Validate.Contracts.{report}
use clavenar_charts.Listener.Validate.Workloads.{
  has_kind, workload_kinds, pods_of, containers_at, container_fields, host_port_errors, host_errors,
  Target, service_targets, sort_numbers, Listening, workload_errors, rendered_ports, governed_ports,
  port_inventory_errors, workloads_errors,
}
use clavenar_charts.Listener.Validate.Workloads.Probes.{ports_of}

-- A port of a container takes no port and no address of the host.
abbrev pub IsOffHost : Value → Type 0
IsOffHost port = (is_in (str "hostPort") port ≡ ok false) × (is_in (str "hostIP") port ≡ ok false)

port_lem : (who : String) (port : Value) → host_port_errors who port ≡ ok [] → IsOffHost port
unfolding host_port_errors
port_lem who port h =
    let (has_port, h1', h1) = >>=-eq-ok (is_in (str "hostPort") port) _ h in
    let (has_address, h2', h2) = >>=-eq-ok (is_in (str "hostIP") port) _ h1 in
    let (p1, p2) = <+>-nil _ _ h2 in
    (h1' ∙ ap ok (refuse-nil has_port _ p1), h2' ∙ ap ok (refuse-nil has_address _ p2))

-- The ports of a container are off the host.
abbrev pub IsContained : Value → Type 0
IsContained container = (ports : List Value) → ports_of container ≡ ok ports → All IsOffHost ports

-- The containers of a Pod at a field are so.
abbrev pub IsContainedAt : Value → String → Type 0
IsContainedAt pod_spec name =
    (containers : List Value)
    → containers_at pod_spec name ≡ ok containers
    → All IsContained containers

-- A Pod stays off the network of its host, with all its containers.
pub record IsIsolated (pod_spec : Value) : Type 0 where
  pub network : Value
  pub network_lem : get pod_spec "hostNetwork" ≡ ok network
  pub off : truthy network ≡ false
  pub contained : All (IsContainedAt pod_spec) container_fields

container_lem :
    (who : String) (container : Value)
    → (ports_of container >>= λ ports. gather (host_port_errors who) ports) ≡ ok []
    → IsContained container
container_lem who container h ports' q =
    let (ports, h1', h1) = >>=-eq-ok (ports_of container) _ h in
    subst (All IsOffHost) (ok-injective (sym h1' ∙ q))
      (gather-All (host_port_errors who) IsOffHost ports (port_lem who) h1)

host_lem : (pod : String × Value) → host_errors pod ≡ ok [] → IsIsolated pod.1
unfolding host_errors
host_lem (who, pod_spec) h =
    let (network, h1', h1) = >>=-eq-ok (get pod_spec "hostNetwork") _ h in
    let (p1, p2) = <+>-nil _ _ h1 in
    record {
      network = network;
      network_lem = h1';
      off = refuse-nil (truthy network) _ p1;
      contained =
          gather-All
            (λ name. containers_at pod_spec name >>= λ containers.
              gather
                (λ container. ports_of container >>= λ ports. gather (host_port_errors who) ports)
                containers)
            (IsContainedAt pod_spec) container_fields
            (λ name e containers' q.
              let (containers, h2', h2) = >>=-eq-ok (containers_at pod_spec name) _ e in
              subst (All IsContained) (ok-injective (sym h2' ∙ q)) (
                gather-All
                  (λ container. ports_of container >>= λ ports. gather (host_port_errors who) ports)
                  IsContained containers (container_lem who) h2))
            p2;
    }

-- The workloads of a service have exactly the ports of its active listeners, in any order.
pub record HasListenerPorts (active : List Value) (listening : List Listening) (target : Target)
    : Type 0 where
  pub unsorted : List ℤ
  pub governed : List ℤ
  pub rendered : List ℤ
  pub unsorted_lem : governed_ports target.0 active ≡ ok unsorted
  pub governed_lem : sort_numbers unsorted ≡ ok governed
  pub rendered_lem : sort_numbers (rendered_ports target.0 listening) ≡ ok rendered
  pub exact : py_eq (list (map int rendered)) (list (map int governed)) ≡ true

ports_lem :
    (active : List Value) (listening : List Listening) (target : Target)
    → port_inventory_errors active listening target ≡ ok []
    → HasListenerPorts active listening target
unfolding port_inventory_errors
ports_lem active listening (service, labels) h =
    let (unsorted, h1', h1) = >>=-eq-ok (governed_ports service active) _ h in
    let (governed, h2', h2) = >>=-eq-ok (sort_numbers unsorted) _ h1 in
    let (rendered, h3', h3) = >>=-eq-ok (sort_numbers (rendered_ports service listening)) _ h2 in
    record {
      unsorted = unsorted;
      governed = governed;
      rendered = rendered;
      unsorted_lem = h1';
      governed_lem = h2';
      rendered_lem = h3';
      exact =
          not-eq-false
            (refuse-nil (not (py_eq (list (map int rendered)) (list (map int governed)))) _ h3);
    }

-- The workloads of the render listen as the active listeners say.
pub record HasWorkloads (docs : List Value) (release : String) (active : List Value) : Type 0 where
  pub workloads : List Value
  pub pods : List (String × Value)
  pub targets : List Target
  pub listening : List Listening
  pub workloads_lem : keep_if (has_kind workload_kinds) docs ≡ ok workloads
  pub pods_lem : gather pods_of docs ≡ ok pods
  pub targets_lem : service_targets release active ≡ ok targets
  pub listening_lem : report (workload_errors active targets) workloads ≡ ok ([], listening)
  pub isolated : All (λ pod. IsIsolated pod.1) pods
  pub ports : All (HasListenerPorts active listening) targets

-- Where the comparison of the workloads has no error, no Pod of the render uses the network of its
-- host and no port of its containers takes a port or an address of the host; no workload has an error
-- of its own; and for each service of an active listener the ports that its workloads have, sorted,
-- are exactly the container ports of its active listeners, sorted.
pub workloads_errors-HasWorkloads :
    (docs : List Value) (release : String) (active : List Value)
    → workloads_errors docs release active ≡ ok []
    → HasWorkloads docs release active
unfolding workloads_errors
workloads_errors-HasWorkloads docs release active h =
    let (workloads, h1', h1) = >>=-eq-ok (keep_if (has_kind workload_kinds) docs) _ h in
    let (pods, h2', h2) = >>=-eq-ok (gather pods_of docs) _ h1 in
    let (host, h3', h3) = >>=-eq-ok (gather host_errors pods) _ h2 in
    let (targets, h4', h4) = >>=-eq-ok (service_targets release active) _ h3 in
    let (reported, h5', h5) = >>=-eq-ok (report (workload_errors active targets) workloads) _ h4 in
    let (p1, h6) = <+>-nil (ok host) _ h5 in
    let (p2, p3) =
      <+>-nil (ok reported.0) (gather (port_inventory_errors active reported.1) targets) h6 in
    record {
      workloads = workloads;
      pods = pods;
      targets = targets;
      listening = reported.1;
      workloads_lem = h1';
      pods_lem = h2';
      targets_lem = h4';
      listening_lem = h5' ∙ ap (λ errors. ok (errors, reported.1)) (ok-injective p2);
      isolated = gather-All host_errors (λ pod. IsIsolated pod.1) pods host_lem (h3' ∙ p1);
      ports =
          gather-All (port_inventory_errors active reported.1) (HasListenerPorts active reported.1)
            targets (ports_lem active reported.1) p3;
    }
