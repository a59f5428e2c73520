-- ===== src/Readiness/Case/Callers.antt =====
-- The NetworkPolicy callers of a bundled render that passed.
use clavenar_charts.Base.{ℕ, String, ◌<>◌, ◌≡◌, true, some, List, [], ◌∷◌, ◌==◌, if◌then◌else◌, ◌⊎◌}
use clavenar_charts.Base.Result.{ok, find_of}
use clavenar_charts.Value.{Value, list}
use clavenar_charts.Value.Access.{get_or, item, each}
use clavenar_charts.Value.Table.{Table}
use clavenar_charts.Readiness.Documents.{is_named, rule_allows}
use clavenar_charts.Readiness.Case.{ready_port}

-- Some rule of a list allows the caller on the port.
abbrev pub AllowedBy : List Value → ℕ → String → Type 0
AllowedBy [] port caller = ⊥
AllowedBy (rule ∷ rules) port caller =
    (rule_allows port caller rule ≡ ok true) ⊎ AllowedBy rules port caller

-- The render has the destination's NetworkPolicy, with an ingress rule for the caller and the port.
pub record Admits (documents : List Value) (destination : String) (port : ℕ) (caller : String)
    : Type 0 where
  pub policy : Value
  pub spec : Value
  pub raw : Value
  pub rules : List Value
  pub policy_lem :
      find_of (is_named "NetworkPolicy" ("readiness-" <> destination)) documents ≡ ok (some policy)
  pub spec_lem : item policy "spec" ≡ ok spec
  pub raw_lem : get_or spec "ingress" (list []) ≡ ok raw
  pub rules_lem : each raw ≡ ok rules
  pub allowed : AllowedBy rules port caller

-- Each destination admits its caller: NATS on 8222, Vault on 8200, another on its readiness port.
abbrev pub AllAdmitted : List Value → Table Value → List (String × String) → Type 0
AllAdmitted documents services [] = Unit
AllAdmitted documents services ((destination, caller) ∷ rest) =
    ((port : ℕ) × ((if destination == "nats"
          then ok 8222
          else if destination == "vault"
          then ok 8200
          else ready_port services destination)
        ≡ ok port)
      × Admits documents destination port caller)
    × AllAdmitted documents services rest
