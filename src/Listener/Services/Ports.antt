-- ===== src/Listener/Services/Ports.antt =====
-- The governed ports: no condition is left in them, and their protocols are written out.
use clavenar_charts.Base.{
  String, ◌≡◌, Bool, true, Option, none, some, arith, eq_iff, eq_refl, ◌==◌, if◌then◌else◌,
  Bool-cases, Option-cases, inl, inr,
}
use clavenar_charts.Value.{Value, str, Fields, end, field}
use clavenar_charts.Value.Dict.{lookup, has_key, lookup-insert, lookup-erase}
use clavenar_charts.Listener.Values.Merge.{lookup_of_fresh}
use clavenar_charts.Value.Equality.{py_eq}
use clavenar_charts.Listener.Services.{set_default, with_app_protocol, governed_port}

lookup-set_default_self :
    (k : String) (v : Value) (fs : Fields)
    → lookup k (set_default k v fs) ≡ some (elim (lookup k fs) [ none ↦ v | some w ↦ w ])
lookup-set_default_self k v fs = elim (Bool-cases (has_key k fs)) [
  | inl old ↦ rw old (known k fs old)
  | inr new ↦ rw (new, lookup-insert, eq_refl, lookup_of_fresh k fs new)
]
  where
    known :
        (j : String) (gs : Fields)
        → has_key j gs ≡ true
        → lookup j gs ≡ some (elim (lookup j gs) [ none ↦ v | some w ↦ w ])
    known j end h = cc
    known j (field i w gs) h = ground (arith, known j gs)

lookup-set_default :
    (k j : String) (v : Value) (fs : Fields)
    → lookup j (set_default k v fs)
      ≡ (if k == j then (if has_key k fs then lookup j fs else some v) else lookup j fs)
lookup-set_default k j v fs = elim (Bool-cases (has_key k fs)) [
  | inl old ↦ rw old (ground arith)
  | inr new ↦ rw (new, lookup-insert k j)
]

-- The protocol of a port: TCP where none is written.
abbrev pub or_default : Option Value → Value
or_default none = str "TCP"
or_default (some v) = v

-- The resolved `appProtocol`.
abbrev pub resolve : Bool → Option Value → Option Value
resolve tls none = none
resolve tls (some v) =
    if py_eq v (str "tlsWhenTlsElseTcp") then some (str (if tls then "tls" else "tcp")) else some v

lookup-with_app_protocol :
    (tls : Bool) (j : String) (fs : Fields)
    → lookup j (with_app_protocol tls fs)
      ≡ (if "appProtocol" == j then resolve tls (lookup "appProtocol" fs) else lookup j fs)
unfolding with_app_protocol
lookup-with_app_protocol tls j fs = elim (Option-cases (lookup "appProtocol" fs)) [
  | inl e ↦ ground (arith, eq_iff "appProtocol" j)
  | inr (v, e) ↦ ground (
    arith,
    eq_iff "appProtocol" j,
    lookup-insert "appProtocol" j (str (if tls then "tls" else "tcp")) fs,
  )
]

-- What a governed port keeps of the port of the matrix, whatever the matrix says: no condition, an
-- explicit protocol (TCP unless the port has one), the application protocol resolved by TLS, and the
-- name and the number as they are.
pub governed_port_lem :
    (tls : Bool) (port : Fields)
    → let governed = governed_port tls port in
      (lookup "enabledWhen" governed ≡ none)
      × (lookup "disabledWhen" governed ≡ none)
      × (lookup "protocol" governed ≡ some (or_default (lookup "protocol" port)))
      × (lookup "appProtocol" governed ≡ resolve tls (lookup "appProtocol" port))
      × (lookup "port" governed ≡ lookup "port" port)
      × (lookup "name" governed ≡ lookup "name" port)
unfolding governed_port
governed_port_lem tls port = (
  simp (lookup-set_default, lookup-with_app_protocol, lookup-erase),
  simp (lookup-set_default, lookup-with_app_protocol, lookup-erase),
  simp (lookup-set_default_self, lookup-with_app_protocol, lookup-erase) (ground arith),
  simp (lookup-set_default, lookup-with_app_protocol, lookup-erase),
  simp (lookup-set_default, lookup-with_app_protocol, lookup-erase),
  simp (lookup-set_default, lookup-with_app_protocol, lookup-erase),
)
