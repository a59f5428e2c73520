-- ===== src/Listener/Services/Inventory.antt =====
-- What `expected_services` returns as a whole: a spec for each enabled Service object.
use mathlib.Core.Path.{subst}
use clavenar_charts.Base.{
  ℕ, suc, ◌+◌, String, ◌≡◌, refl, sym, ◌∙◌, ap, Bool, true, false, ◌<>◌, List, [], ◌∷◌, arith,
  eq_iff, if◌then◌else◌, Bool-cases, inl, inr, ◌⊎◌,
}
use clavenar_charts.Base.Result.{Result, ok, raise, ◌>>=◌, value_error, >>=-eq-ok, ok-injective}
use clavenar_charts.Value.{Value, Fields, end, field}
use clavenar_charts.Value.Dict.{has_key, insert, count, NodupKeys, insert-NodupKeys}
use clavenar_charts.Value.Access.{item, each, as_text}
use clavenar_charts.Listener.Condition.{condition_enabled}
use clavenar_charts.Listener.Format.{format}
use clavenar_charts.Listener.Services.{
  tls_enabled, service_ports, service_selector, service_spec, add_service, add_services,
  expected_services,
}

-- The condition of a Service object holds.
pub object_enabled : Value → Value → Result Bool
object_enabled values object =
    item object "enabledWhen" >>= λ condition. condition_enabled condition values

-- How many of the objects are enabled; an object whose condition cannot be read counts as not.
pub enabled_count : Value → List Value → ℕ
enabled_count values [] = 0
enabled_count values (object ∷ objects) =
    let rest = enabled_count values objects in
    elim (object_enabled values object) [ ok true ↦ suc rest | _ ↦ rest ]

count-insert_fresh :
    (k : String) (v : Value) (fs : Fields)
    → has_key k fs ≡ false
    → count (insert k v fs) ≡ suc (count fs)
unfolding insert
count-insert_fresh k v end h = refl
count-insert_fresh k v (field j w fs) h = ground (arith, eq_iff j k, count-insert_fresh k v fs)

-- The part of the round that an enabled object reaches.
added :
    (values : Value) (release namespace : String) (result : Fields) (object : Value) {next : Fields}
    → (do
      ports ← service_ports object values (tls_enabled values)
      owner_selector ← service_selector object release
      raw_name ← item object "name"
      template ← as_text raw_name
      name ← format template (("release", release) ∷ [])
      if has_key name result
          then raise (value_error ("duplicate Service object name " <> name))
          else (do
            spec ← service_spec object values release namespace ports owner_selector
            ok (insert name spec result)))
      ≡ ok next
    → (name : String) × (spec : Value) × (has_key name result ≡ false)
      × (next ≡ insert name spec result)
added values release namespace result object h =
    let (ports, _, h1) = >>=-eq-ok (service_ports object values (tls_enabled values)) _ h in
    let (chosen, _, h2) = >>=-eq-ok (service_selector object release) _ h1 in
    let (raw, _, h3) = >>=-eq-ok (item object "name") _ h2 in
    let (template, _, h4) = >>=-eq-ok (as_text raw) _ h3 in
    let (name, _, h5) = >>=-eq-ok (format template (("release", release) ∷ [])) _ h4 in
    elim (Bool-cases (has_key name result)) [
      | inl old ↦ cc (rw old at h5)
      | inr fresh ↦
          let (spec, _, h6) =
            >>=-eq-ok (service_spec object values release namespace ports chosen) _
              (rw fresh at h5) in
          (name, spec, fresh, sym (ok-injective h6))
    ]

-- What one round does: nothing for an object that is not enabled, one new name otherwise.
add_service_cases :
    (values : Value) (release namespace : String) (result : Fields) (object : Value) {next : Fields}
    → add_service values release namespace result object ≡ ok next
    → ((object_enabled values object ≡ ok false) × (next ≡ result))
      ⊎ ((object_enabled values object ≡ ok true)
          × ((name : String) × (spec : Value) × (has_key name result ≡ false)
              × (next ≡ insert name spec result)))
unfolding add_service object_enabled
add_service_cases values release namespace result object {next} h =
    let (c, hc, h1) = >>=-eq-ok (item object "enabledWhen") _ h in
    let (enabled, he, h2) = >>=-eq-ok (condition_enabled c values) _ h1 in
    elim (Bool-cases enabled) [
      | inl on ↦ inr (rw (hc, he, on), added values release namespace result object (rw on at h2))
      | inr off ↦ inl (rw (hc, he, off), sym (ok-injective (rw off at h2)))
    ]

-- The loop keeps names unique and adds one entry for each enabled object.
add_services_lem :
    (values : Value) (release namespace : String) (objects : List Value) (result : Fields)
    {fs : Fields}
    → NodupKeys result
    → add_services values release namespace result objects ≡ ok fs
    → NodupKeys fs × (count fs ≡ count result + enabled_count values objects)
unfolding add_services enabled_count
add_services_lem values release namespace [] result u h =
    (subst NodupKeys (ok-injective h) u, sym (ap count (ok-injective h)) ∙ omega arith)
add_services_lem values release namespace (object ∷ objects) result u h =
    let (next, hn, h1) = >>=-eq-ok (add_service values release namespace result object) _ h in
    elim (add_service_cases values release namespace result object hn) [
      | inl (off, same) ↦
          let (u', c) =
            add_services_lem values release namespace objects next (subst NodupKeys (sym same) u)
              h1 in
          (u', rw (off, enabled_count) (c ∙ rw same))
      | inr (on, (name, spec, fresh, grown)) ↦
          let (u', c) =
            add_services_lem values release namespace objects next
              (subst NodupKeys (sym grown) (insert-NodupKeys name spec result u)) h1 in
          (
            u',
            rw (on, enabled_count)
                (omega (arith, c, ap count grown, count-insert_fresh name spec result fresh)),
          )
    ]

-- If `expected_services` returns, it has each Service name once, and exactly as many specs as the
-- matrix has Service objects whose condition holds.
pub expected_services_inventory :
    (matrix values : Value) (release namespace : String) {raw : Value} {objects : List Value}
    {fs : Fields}
    → item matrix "serviceObjects" ≡ ok raw
    → each raw ≡ ok objects
    → expected_services matrix values release namespace ≡ ok fs
    → NodupKeys fs × (count fs ≡ enabled_count values objects)
unfolding expected_services
expected_services_inventory matrix values release namespace {objects} hr hf h =
    let (u, c) = add_services_lem values release namespace objects end tt (rw hf at (rw hr at h)) in
    (u, c ∙ omega arith)
