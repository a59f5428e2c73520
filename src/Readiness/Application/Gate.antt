-- ===== src/Readiness/Application/Gate.antt =====
-- What the startup gate of a Pod satisfies when its checks pass.
use clavenar_charts.Base.{
  Option, ◌⊎◌, inl, inr, Bool-cases, String, ◌≡◌, ap, ◌∙◌, true, false, List, [], ◌∷◌,
}
use clavenar_charts.Base.Result.{Exception, raise, ◌>>=◌, ok, >>=-eq-ok, ok-injective}
use clavenar_charts.Value.{Value, str, list}
use clavenar_charts.Value.Equality.{py_eq}
use clavenar_charts.Value.Access.{get_or, item, first, each, is_in}
use clavenar_charts.Value.Table.{Table}
use clavenar_charts.Readiness.Endpoint.{require}
use clavenar_charts.Readiness.Contract.Mirror.{require-ok}
use clavenar_charts.Readiness.Target.{target_url}
use clavenar_charts.Readiness.Application.{gate_of, gate_or_fail, verify_edges, verify_gate}

-- The script of a gate waits for the readiness URL of every dependency.
abbrev pub Waits : Value → Table Value → Value → List Value → Type 0
Waits script services values [] = Unit
Waits script services values (dependency ∷ dependencies) =
    ((url : Value) × (target_url dependency services values ≡ ok url)
      × (is_in url script ≡ ok true))
    × Waits script services values dependencies

verify_edges_lem :
    (scope : String) (script : Value) (services : Table Value) (values : Value)
    (dependencies : List Value) {u : Unit {0}}
    → verify_edges scope script services values dependencies ≡ ok u
    → Waits script services values dependencies
unfolding verify_edges
verify_edges_lem scope script services values [] h = tt
verify_edges_lem scope script services values (dependency ∷ dependencies) h =
    let (url, hurl, h1) = >>=-eq-ok (target_url dependency services values) _ h in
    let (present, hin, h2) = >>=-eq-ok (is_in url script) _ h1 in
    let (_, hreq, h3) = >>=-eq-ok (require present _) _ h2 in
    (
      (url, hurl, hin ∙ ap ok (require-ok present _ hreq)),
      verify_edges_lem scope script services values dependencies h3,
    )

-- An init container with the name of the gate, and the ones before it have other names.
abbrev pub HasGate : List Value → Value → Type 0
HasGate [] gate = ⊥
HasGate (container ∷ containers) gate =
    (name : Value) × (item container "name" ≡ ok name)
    × (((py_eq name (str "dependency-readiness-gate") ≡ true) × (container ≡ gate))
        ⊎ ((py_eq name (str "dependency-readiness-gate") ≡ false) × HasGate containers gate))

gate_lem :
    (scope : String) (containers : List Value) {gate : Value} {found : Option Value}
    → gate_of containers ≡ ok found
    → gate_or_fail scope found ≡ ok gate
    → HasGate containers gate
gate_lem scope [] {gate} {found} h g =
    absurd (missing (ap (gate_or_fail scope) (ok-injective h) ∙ g))
  where
    missing : {e : Exception} → raise e ≡ ok gate → ⊥
    missing e = cc
gate_lem scope (container ∷ containers) {gate} {found} h g =
    let (named, hnamed, h1) =
      >>=-eq-ok (item container "name" >>= λ n. ok (py_eq n (str "dependency-readiness-gate"))) _
        h in
    let (name, hname, hsame) = >>=-eq-ok (item container "name") _ hnamed in
    elim (Bool-cases named) [
      | inl on ↦ (
        name,
        hname,
        inl (
          ok-injective hsame ∙ on,
          ok-injective (ap (gate_or_fail scope) (ok-injective (rw on at h1)) ∙ g),
        ),
      )
      | inr off ↦
          (name, hname, inr (ok-injective hsame ∙ off, gate_lem scope containers (rw off at h1) g))
    ]

-- The Pod has a gate whose script, its first argument, is bounded in time and attempts and waits for
-- the dependencies.
pub record IsGated (pod : Value) (services : Table Value) (values : Value)
    (dependencies : List Value) : Type 0 where
  pub spec : Value
  pub raw : Value
  pub containers : List Value
  pub gate : Value
  pub arguments : Value
  pub script : Value
  pub spec_lem : item pod "spec" ≡ ok spec
  pub raw_lem : get_or spec "initContainers" (list []) ≡ ok raw
  pub containers_lem : each raw ≡ ok containers
  pub has_gate : HasGate containers gate
  pub arguments_lem : item gate "args" ≡ ok arguments
  pub script_lem : first arguments ≡ ok script
  pub bounded : is_in (str "wget -q -T 2 -O /dev/null") script ≡ ok true
  pub limited : is_in (str "\"$attempt\" -ge 30") script ≡ ok true
  pub waits : Waits script services values dependencies

pub verify_gate_lem :
    (scope : String) (pod : Value) (services : Table Value) (values : Value)
    (dependencies : List Value) {u : Unit {0}}
    → verify_gate scope pod services values dependencies ≡ ok u
    → IsGated pod services values dependencies
unfolding verify_gate
verify_gate_lem scope pod services values dependencies h =
    let (spec, hspec, h1) = >>=-eq-ok (item pod "spec") _ h in
    let (raw, hraw, h2) = >>=-eq-ok (get_or spec "initContainers" (list [])) _ h1 in
    let (containers, hcont, h3) = >>=-eq-ok (each raw) _ h2 in
    let (found, hfound, h4) = >>=-eq-ok (gate_of containers) _ h3 in
    let (gate, hgate, h5) = >>=-eq-ok (gate_or_fail scope found) _ h4 in
    let (arguments, hargs, h6) = >>=-eq-ok (item gate "args") _ h5 in
    let (script, hscript, h7) = >>=-eq-ok (first arguments) _ h6 in
    let (bounded, hb, h8) = >>=-eq-ok (is_in (str "wget -q -T 2 -O /dev/null") script) _ h7 in
    let (_, rb, h9) = >>=-eq-ok (require bounded _) _ h8 in
    let (limited, hl, h10) = >>=-eq-ok (is_in (str "\"$attempt\" -ge 30") script) _ h9 in
    let (_, rl, h11) = >>=-eq-ok (require limited _) _ h10 in
    record {
      spec = spec;
      raw = raw;
      containers = containers;
      gate = gate;
      arguments = arguments;
      script = script;
      spec_lem = hspec;
      raw_lem = hraw;
      containers_lem = hcont;
      has_gate = gate_lem scope containers hfound hgate;
      arguments_lem = hargs;
      script_lem = hscript;
      bounded = hb ∙ ap ok (require-ok bounded _ rb);
      limited = hl ∙ ap ok (require-ok limited _ rl);
      waits = verify_edges_lem scope script services values dependencies h11;
    }
