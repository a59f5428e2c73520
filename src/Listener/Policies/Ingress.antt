-- ===== src/Listener/Policies/Ingress.antt =====
-- The ingress rules that the matrix governs: one TCP port of a listener each, and the sources
-- that the contract's tokens stand for.
use clavenar_charts.Base.{
  String, ◌≡◌, sym, ◌∙◌, ap, refl, true, false, Option, none, some, List, [], ◌∷◌, Bool-cases,
  Option-cases, inl, inr, ◌⊎◌,
}
use clavenar_charts.Base.Result.{ok, gather, >>=-eq-ok, ok-injective}
use clavenar_charts.Value.{Value, null, str, int, dict, end, list, ℤ, ◌▸◌}
use clavenar_charts.Value.Equality.{py_eq}
use clavenar_charts.Value.Access.{get, item, each, is_in, hashed, is_hashable}
use clavenar_charts.Value.Number.{to_int}
use clavenar_charts.Listener.Condition.{contract_enabled}
use clavenar_charts.Listener.Selectors.{rule}
use clavenar_charts.Listener.Policies.Sources.{AreGiven, AreUnset, gather-AreGiven, AreGiven-nil}
use clavenar_charts.Listener.Policies.{token_peers, rule_sources, listener_at, ingress_rule}

pub hashed-eq-ok : (v : Value) {k : Value} → hashed v ≡ ok k → k ≡ v
hashed-eq-ok v h = elim (Bool-cases (is_hashable v)) [
  | inl e ↦ sym (ok-injective (rw e at h))
  | inr e ↦ cc (rw e at h)
]

abbrev pub tcp_port : ℤ → Value
tcp_port n = list (dict (("protocol", str "TCP") ▸ ("port", int n) ▸ end) ∷ [])

abbrev from_value : Option (List Value) → Value
from_value sources = elim sources [ none ↦ null | some xs ↦ list xs ]

-- A rule opens one TCP port, and has sources exactly where peers are given.
rule_lem :
    (port : Value) (peers : Option (List Value)) {built : Value}
    → rule port peers ≡ ok built
    → (n : ℤ) × (to_int port ≡ ok n)
      × (get built "ports" ≡ ok (tcp_port n))
      × (get built "from" ≡ ok (elim peers [ none ↦ null | some sources ↦ list sources ]))
unfolding rule
rule_lem port none h =
    let (n, hn, e) = >>=-eq-ok (to_int port) _ h in
    (n, hn, rw (← ok-injective e), rw (← ok-injective e))
rule_lem port (some sources) h =
    let (n, hn, e) = >>=-eq-ok (to_int port) _ h in
    (n, hn, rw (← ok-injective e), rw (← ok-injective e))

-- The tokens are exactly `any`, and the rule has no sources; or `any` is none of them, and the
-- sources of the rule are what the tokens stand for.
abbrev pub HasSources : Value → Value → String → Value → Value → Value → Type 0
HasSources matrix values release service tokens built =
    ((py_eq tokens (list (str "any" ∷ [])) ≡ true) × (get built "from" ≡ ok null))
    ⊎ ((named sources : List Value) × (is_in (str "any") tokens ≡ ok false)
        × (each tokens ≡ ok named)
        × AreGiven matrix values release service named sources
        × (get built "from" ≡ ok (list sources)))

has_sources_lem :
    (matrix values : Value) (release : String) (service tokens built : Value)
    {sources : Option (List Value)}
    → rule_sources matrix values release service tokens ≡ ok sources
    → get built "from" ≡ ok (elim sources [ none ↦ null | some xs ↦ list xs ])
    → HasSources matrix values release service tokens built
unfolding rule_sources
has_sources_lem matrix values release service tokens built {sources} h hfrom =
    let (any_peer, hany, h1) = >>=-eq-ok (is_in (str "any") tokens) _ h in
    elim (Bool-cases any_peer) [
      | inl on ↦ elim (Bool-cases (py_eq tokens (list (str "any" ∷ [])))) [
        | inl same ↦
            inl
              (same, hfrom ∙ ap (λ s. ok (from_value s)) (sym (ok-injective (rw (on, same) at h1))))
        | inr other ↦ cc (rw (on, other) at h1)
      ]
      | inr off ↦
          let (named, hn, h2) = >>=-eq-ok (each tokens) _ (rw off at h1) in
          let (given, hg, h3) =
            >>=-eq-ok (gather (token_peers matrix values release service) named) _ h2 in
          inr (
            named,
            given,
            hany ∙ ap ok off,
            hn,
            gather-AreGiven matrix values release service named hg,
            hfrom ∙ ap (λ s. ok (from_value s)) (sym (ok-injective h3)),
          )
    ]

-- Kubernetes admits every source where `from` is missing or empty.
abbrev pub IsOpen : Value → Type 0
IsOpen built = (get built "from" ≡ ok null) ⊎ (get built "from" ≡ ok (list []))

-- The tokens are exactly `any`, or each of them (there may be none) stands for configured peers that
-- the values leave empty.
abbrev pub MayBeOpen : Value → Value → Type 0
MayBeOpen values tokens =
    (py_eq tokens (list (str "any" ∷ [])) ≡ true)
    ⊎ ((named : List Value) × (each tokens ≡ ok named) × AreUnset values named)

list-nil : (sources : List Value) → list sources ≡ list [] → sources ≡ []
list-nil [] e = refl
list-nil (x ∷ xs) e = cc

list-ne-null : (sources : List Value) → list sources ≡ null → ⊥
list-ne-null sources e = cc

open_lem_of :
    (matrix values : Value) (release : String) (service tokens built : Value)
    → HasSources matrix values release service tokens built
    → IsOpen built
    → MayBeOpen values tokens
open_lem_of matrix values release service tokens built (inl (same, _)) wide = inl same
open_lem_of matrix values release service tokens built (inr (named, sources, _, hn, given, hfrom))
      (inl missing) =
    absurd (list-ne-null sources (ok-injective (sym hfrom ∙ missing)))
open_lem_of matrix values release service tokens built (inr (named, sources, _, hn, given, hfrom))
      (inr empty) =
    inr (
      named,
      hn,
      AreGiven-nil matrix values release service named
          (list-nil sources (ok-injective (sym hfrom ∙ empty))) given,
    )

-- What a governed rule that is enabled becomes.
pub record IsGoverned (matrix values : Value) (release : String)
    (by_id : List ((Value × Value) × Value)) (service governed built : Value) : Type 0 where
  pub id : Value
  pub listener : Value
  pub port : Value
  pub number : ℤ
  pub tokens : Value
  pub id_lem : item governed "listenerId" ≡ ok id
  pub listener_lem : listener_at service id by_id ≡ some listener
  pub port_lem : item listener "containerPort" ≡ ok port
  pub number_lem : to_int port ≡ ok number
  pub ports_lem : get built "ports" ≡ ok (tcp_port number)
  pub tokens_lem : item governed "peers" ≡ ok tokens
  pub has_sources : HasSources matrix values release service tokens built
  pub open_lem : IsOpen built → MayBeOpen values tokens

-- A governed rule that is not enabled gives no ingress rule. One that is enabled gives one, or the
-- code raises: it opens the TCP port of the listener that the governed rule references, and its
-- sources are missing where the tokens are exactly `any`, and are otherwise, in order, what the tokens
-- stand for: the namespace of Prometheus, which the values must name; configured peers; or one peer.
-- The sources are missing or empty only where the tokens are exactly `any` or all stand for configured
-- peers that the values leave empty, as they vacuously do where there is no token.
pub ingress_rule-IsGoverned :
    (matrix values : Value) (release : String) (service : Value)
    (by_id : List ((Value × Value) × Value)) (governed : Value) {rules : List Value}
    → ingress_rule matrix values release service by_id governed ≡ ok rules
    → ((contract_enabled governed values ≡ ok false) × (rules ≡ []))
      ⊎ ((contract_enabled governed values ≡ ok true)
          × ((built : Value) × (rules ≡ built ∷ [])
              × IsGoverned matrix values release by_id service governed built))
unfolding ingress_rule
ingress_rule-IsGoverned matrix values release service by_id governed h =
    let (enabled, henabled, h1) = >>=-eq-ok (contract_enabled governed values) _ h in
    elim (Bool-cases enabled) [
      | inr off ↦ inl (henabled ∙ ap ok off, sym (ok-injective (rw off at h1)))
      | inl on ↦
          let (raw_id, hid, h2) = >>=-eq-ok (item governed "listenerId") _ (rw on at h1) in
          let (key, hkey, h3) = >>=-eq-ok (hashed service) _ h2 in
          let (id, hhash, h4) = >>=-eq-ok (hashed raw_id) _ h3 in
          elim (Option-cases (listener_at key id by_id)) [
            | inl missing ↦ cc (rw missing at h4)
            | inr (listener, found) ↦
                let (tokens, htok, h5) = >>=-eq-ok (item governed "peers") _ (rw found at h4) in
                let (sources, hsrc, h6) =
                  >>=-eq-ok (rule_sources matrix values release service tokens) _ h5 in
                let (port, hport, h7) = >>=-eq-ok (item listener "containerPort") _ h6 in
                let (built, hbuilt, h8) = >>=-eq-ok (rule port sources) _ h7 in
                let (number, hnum, hports, hfrom) = rule_lem port sources hbuilt in
                let has_sources =
                  has_sources_lem matrix values release service tokens built hsrc hfrom in
                inr (
                  henabled ∙ ap ok on,
                  (
                    built,
                    sym (ok-injective h8),
                    record {
                      id = id;
                      listener = listener;
                      port = port;
                      number = number;
                      tokens = tokens;
                      id_lem = rw (hashed-eq-ok raw_id hhash) hid;
                      listener_lem = rw (hashed-eq-ok service hkey) at found;
                      port_lem = hport;
                      number_lem = hnum;
                      ports_lem = hports;
                      tokens_lem = htok;
                      has_sources = has_sources;
                      open_lem = open_lem_of matrix values release service tokens built has_sources;
                    },
                  ),
                )
          ]
    ]
