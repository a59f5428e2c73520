-- ===== src/Listener/Validate/Workloads.antt =====
-- The part of `validate` that compares the Pods of the render with the active listeners.
pub mod Probes
pub mod Exact
use clavenar_charts.Base.{
  String, ◌<>◌, Bool, true, false, not, ◌&&◌, List, [], ◌∷◌, ◌++◌, map, ltb, if◌then◌else◌,
}
use clavenar_charts.Base.Lists.{length, is_empty}
use clavenar_charts.Base.Result.{Result, ok, ◌>>=◌, keep_if, gather, traverse}
use clavenar_charts.Value.{Value, str, int, dict, Fields, end, field, list, texts, ℤ}
use clavenar_charts.Value.Equality.{py_eq, member, set_of}
use clavenar_charts.Value.Access.{truthy, get, get_or, item, each, or_else, is_in, hashed}
use clavenar_charts.Value.Number.{to_int, int_leb}
use clavenar_charts.Value.Print.{text_of}
use clavenar_charts.Value.Sort.{sort_by}
use clavenar_charts.Listener.Errors.{refuse, ◌<+>◌}
use clavenar_charts.Listener.Rendered.{get_path}
use clavenar_charts.Listener.Selectors.{workload_selector, items_of_dict}
use clavenar_charts.Listener.Validate.Contracts.{report}
use clavenar_charts.Listener.Validate.Services.{name_of}
use clavenar_charts.Listener.Validate.Workloads.Probes.{ports_of, probe_errors_of}

-- `doc.get("kind") in kinds`
unfoldable pub has_kind : List String → Value → Result Bool
has_kind kinds doc = do raw ← get doc "kind"; kind ← hashed raw; ok (member (texts kinds) kind)

abbrev pub workload_kinds : List String
workload_kinds = "Deployment" ∷ "StatefulSet" ∷ "DaemonSet" ∷ []

-- `f"{kind}/{name}"`
unfoldable pub resource_name : Value → Result String
resource_name doc = do
  kind ← get doc "kind"
  name ← name_of doc
  ok (text_of kind <> "/" <> text_of name)

-- The Pod of a document at a path, under the document's name.
unfoldable pub pod_at : List String → Value → Result (List (String × Value))
pod_at path doc = do
  name ← resource_name doc
  pod_spec ← get_path doc path
  ok ((name, pod_spec) ∷ [])

-- One round of the loop that collects `pod_specs`.
unfoldable pub pods_of : Value → Result (List (String × Value))
pods_of doc = do
  kind ← get doc "kind"
  if py_eq kind (str "Pod") then pod_at ("spec" ∷ []) doc else (do
    templated ← has_kind ("Deployment" ∷ "StatefulSet" ∷ "DaemonSet" ∷ "Job" ∷ []) doc
    if templated
        then pod_at ("spec" ∷ "template" ∷ "spec" ∷ []) doc
        else if py_eq kind (str "CronJob")
        then pod_at ("spec" ∷ "jobTemplate" ∷ "spec" ∷ "template" ∷ "spec" ∷ []) doc
        else ok [])

-- `pod_spec.get(field, []) or []`
unfoldable pub containers_at : Value → String → Result (List Value)
containers_at pod_spec name = do raw ← get_or pod_spec name (list []); each (or_else raw (list []))

abbrev pub container_fields : List String
container_fields = "initContainers" ∷ "containers" ∷ "ephemeralContainers" ∷ []

unfoldable pub host_port_errors : String → Value → Result (List String)
host_port_errors who port = do
  has_port ← is_in (str "hostPort") port
  has_address ← is_in (str "hostIP") port
  refuse has_port (who <> " uses forbidden hostPort")
      <+> refuse has_address (who <> " uses forbidden hostIP")

-- A Pod does not use the network of its host.
unfoldable pub host_errors : String × Value → Result (List String)
host_errors (who, pod_spec) = do
  network ← get pod_spec "hostNetwork"
  refuse (truthy network) (who <> " uses forbidden hostNetwork")
      <+> gather
          (λ name. containers_at pod_spec name >>= λ containers.
            gather
              (λ container. ports_of container >>= λ ports. gather (host_port_errors who) ports)
              containers)
          container_fields

-- A service with the labels of its Pods.
abbrev pub Target : Type 0
Target = Value × Fields

-- `{service: workload_selector(release, service) for service in {…}}`
unfoldable pub service_targets : String → List Value → Result (List Target)
service_targets release active = do
  raw ← traverse (λ listener. item listener "service") active
  services ← traverse hashed raw
  traverse
      (λ service.
        items_of_dict (workload_selector release service) >>= λ target. ok (service, target))
      (set_of services)

-- `all(labels.get(key) == value for key, value in target.items())`
unfoldable pub carries : Value → Fields → Result Bool
carries labels end = ok true
carries labels (field k v target) =
    let later = carries labels target in
    get labels k >>= λ w. (if py_eq w v then later else ok false)

-- The numbers of a container's ports.
unfoldable pub exposed_ports : Value → Result (List ℤ)
exposed_ports container = do
  ports ← ports_of container
  gather
      (λ port. is_in (str "containerPort") port >>= λ numbered.
        (if not numbered
          then ok []
          else do raw ← item port "containerPort"; number ← to_int raw; ok (number ∷ [])))
      ports

unfoldable pub sort_numbers : List ℤ → Result (List ℤ)
sort_numbers numbers = sort_by (λ m n. ok (int_leb m n)) numbers

abbrev pub numbers_text : List ℤ → String
numbers_text numbers = text_of (list (map int numbers))

-- `spec.template.metadata.labels` of a workload.
unfoldable pub labels_at : Value → Result Value
labels_at doc = get_path doc ("spec" ∷ "template" ∷ "metadata" ∷ "labels" ∷ [])

-- The services with their ports that a workload listens for.
abbrev pub Listening : Type 0
Listening = Value × List ℤ

unfoldable pub unlisted_errors : String → List ℤ → List Value → Result (List String)
unlisted_errors who exposed services =
    if is_empty exposed then ok [] else if not (is_empty services) then ok [] else do
      sorted ← sort_numbers exposed
      ok (
          ("unlisted listening workload "
            <> who
            <> " exposes container ports "
            <> numbers_text sorted)
          ∷ [])

-- The errors about one workload, with the ports that it has for the services that it matches.
unfoldable pub workload_errors :
    List Value → List Target → Value → Result (List String × List Listening)
workload_errors active targets doc = do
  labels ← labels_at doc
  pod_spec ← get_path doc ("spec" ∷ "template" ∷ "spec" ∷ [])
  who ← resource_name doc
  containers ← gather (containers_at pod_spec) container_fields
  exposed ← gather exposed_ports containers
  matching ← keep_if (λ target. carries labels target.1) targets
  let services = map (λ target. target.0) matching
  errors ←
      unlisted_errors who exposed services
      <+> refuse (ltb 1 (length services))
          (who <> " ambiguously matches listener services " <> text_of (list services))
      <+> gather (probe_errors_of who active pod_spec) services
  ok (errors, map (λ service. (service, exposed)) services)

-- The ports of the workloads for one service.
abbrev pub rendered_ports : Value → List Listening → List ℤ
rendered_ports service [] = []
rendered_ports service ((s, ports) ∷ rest) =
    let later = rendered_ports service rest in if py_eq s service then ports ++ later else later

-- The ports of the active listeners of one service.
unfoldable pub governed_ports : Value → List Value → Result (List ℤ)
governed_ports service active =
    gather
      (λ listener. item listener "service" >>= λ s.
        (if not (py_eq s service)
          then ok []
          else do raw ← item listener "containerPort"; number ← to_int raw; ok (number ∷ [])))
      active

-- The workloads of a service do not have exactly the ports of its listeners.
unfoldable pub port_inventory_errors : List Value → List Listening → Target → Result (List String)
port_inventory_errors active listening (service, _) = do
  unsorted ← governed_ports service active
  governed ← sort_numbers unsorted
  rendered ← sort_numbers (rendered_ports service listening)
  refuse (not (py_eq (list (map int rendered)) (list (map int governed)))) (
      "workload "
      <> text_of service
      <> " container ports "
      <> numbers_text rendered
      <> " != active listeners "
      <> numbers_text governed)

unfoldable pub workloads_errors : List Value → String → List Value → Result (List String)
workloads_errors docs release active = do
  workloads ← keep_if (has_kind workload_kinds) docs
  pods ← gather pods_of docs
  host ← gather host_errors pods
  targets ← service_targets release active
  (errors, listening) ← report (workload_errors active targets) workloads
  ok host <+> ok errors <+> gather (port_inventory_errors active listening) targets
