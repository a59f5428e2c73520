-- ===== src/Listener/Validate/Configured.antt =====
-- The peers that values without errors configure.
use clavenar_charts.Base.{String, ◌≡◌, List, []}
use clavenar_charts.Base.Result.{ok, >>=-eq-ok, ok-injective}
use clavenar_charts.Value.{Value, list}
use clavenar_charts.Value.Access.{each, or_else}
use clavenar_charts.Listener.Values.{value_at}
use clavenar_charts.Listener.Errors.{<+>-nil, All, gather-All}
use clavenar_charts.Listener.Profile.{validate_deployment_profile}
use clavenar_charts.Listener.Peers.{
  exact_positive_peer, validate_exact_positive_peers, foreign_peer, prometheus_namespace,
  validate_ledger_trusted_proxy_peer, validate_nats_demo_mint_peer, validate_simulator_peer,
  validate_demo_reset_peer,
}
use clavenar_charts.Listener.Peers.Foreign.{
  Single, AcceptsForeign, AcceptsLocal, Configured, foreign_value_iff, validate_simulator_peer_iff,
  validate_nats_demo_mint_peer_iff, validate_demo_reset_peer_iff,
}
use clavenar_charts.Listener.Validate.{peer_paths, values_errors}
use clavenar_charts.Listener.Validate.Positive.{each_indexed-All, IsPositive, positive_lem}

-- The peers that are configured at the path satisfy a condition.
abbrev pub HasPeersAt : Value → (List Value → Type 0) → String → Type 0
HasPeersAt values Condition path =
    (peers : List Value) × Configured values path peers × Condition peers

-- The peers that values without errors configure: all of them have exact positive selectors; those
-- of the ledger's trusted proxy choose the website in a namespace apart; and there is at most one for
-- the demo mint, the simulator and the demo reset each, under its conditions.
pub record HasPeers (values : Value) (namespace : String) : Type 0 where
  pub positive : All (HasPeersAt values (All IsPositive)) peer_paths
  pub trusted_proxy :
      HasPeersAt values
        (All (AcceptsForeign "clavenar-website" namespace (prometheus_namespace values)))
        "networkPolicy.ledger.trustedProxy.allowedPeers"
  pub demo_mint :
      HasPeersAt values
        (Single
          (AcceptsForeign "clavenar-demo-mint" namespace (prometheus_namespace values))
          (value_at values "networkPolicy.enabled")
          (value_at values "nats.bundled.enabled"))
        "networkPolicy.nats.demoMint.allowedPeers"
  pub simulator :
      HasPeersAt values
        (Single
          (AcceptsForeign "clavenar-simulator" namespace (prometheus_namespace values))
          (value_at values "networkPolicy.enabled")
          (value_at values "tlsBundle.secretName"))
        "networkPolicy.simulator.allowedPeers"
  pub demo_reset :
      HasPeersAt values
        (Single
          (AcceptsLocal "clavenar-demo-reset")
          (value_at values "networkPolicy.enabled")
          (value_at values "tlsBundle.secretName"))
        "networkPolicy.demoReset.allowedPeers"

positive_paths_lem :
    (values : Value) (paths : List String)
    → validate_exact_positive_peers values paths ≡ ok []
    → All (HasPeersAt values (All IsPositive)) paths
unfolding validate_exact_positive_peers
positive_paths_lem values paths h =
    gather-All _ (HasPeersAt values (All IsPositive)) paths
      (λ path e.
        let (peers, hp, h1) = >>=-eq-ok (each (or_else (value_at values path) (list []))) _ e in
        (
          peers,
          hp,
          each_indexed-All (exact_positive_peer path) IsPositive 0 peers (positive_lem path)
              (ok-injective h1),
        ))
      h

proxy_lem :
    (values : Value) (namespace : String)
    → validate_ledger_trusted_proxy_peer values namespace ≡ ok []
    → HasPeersAt values
        (All (AcceptsForeign "clavenar-website" namespace (prometheus_namespace values)))
        "networkPolicy.ledger.trustedProxy.allowedPeers"
unfolding validate_ledger_trusted_proxy_peer
proxy_lem values namespace h =
    let path : String = "networkPolicy.ledger.trustedProxy.allowedPeers" in
    let (peers, hp, h1) = >>=-eq-ok (each (or_else (value_at values path) (list []))) _ h in
    let prometheus = prometheus_namespace values in
    (
      peers,
      hp,
      each_indexed-All (foreign_peer path "website" "clavenar-website" namespace prometheus)
          (AcceptsForeign "clavenar-website" namespace prometheus) 0 peers
          (λ i p. (foreign_value_iff path "website" "clavenar-website" namespace prometheus i p).0)
          (ok-injective h1),
    )

demo_mint-Configured :
    (values : Value) (namespace : String)
    → validate_nats_demo_mint_peer values namespace ≡ ok []
    → (peers : List Value) × Configured values "networkPolicy.nats.demoMint.allowedPeers" peers
unfolding validate_nats_demo_mint_peer
demo_mint-Configured values namespace h = let (peers, hp, _) = >>=-eq-ok (each _) _ h in (peers, hp)

simulator-Configured :
    (values : Value) (namespace : String)
    → validate_simulator_peer values namespace ≡ ok []
    → (peers : List Value) × Configured values "networkPolicy.simulator.allowedPeers" peers
unfolding validate_simulator_peer
simulator-Configured values namespace h = let (peers, hp, _) = >>=-eq-ok (each _) _ h in (peers, hp)

demo_reset-Configured :
    (values : Value)
    → validate_demo_reset_peer values ≡ ok []
    → (peers : List Value) × Configured values "networkPolicy.demoReset.allowedPeers" peers
unfolding validate_demo_reset_peer
demo_reset-Configured values h = let (peers, hp, _) = >>=-eq-ok (each _) _ h in (peers, hp)

-- Values without errors have governed peers, and are those of their profile.
pub values_lem :
    (values : Value) (namespace : String)
    → values_errors values namespace ≡ ok []
    → HasPeers values namespace × (validate_deployment_profile values ≡ ok [])
unfolding values_errors
values_lem values namespace h =
    let (positive, h1) = <+>-nil _ _ h in
    let (proxy, h2) = <+>-nil _ _ h1 in
    let (demo_mint, h3) = <+>-nil _ _ h2 in
    let (simulator, h4) = <+>-nil _ _ h3 in
    let (demo_reset, profile) = <+>-nil _ (validate_deployment_profile values) h4 in
    let (mints, hm) = demo_mint-Configured values namespace demo_mint in
    let (simulators, hs) = simulator-Configured values namespace simulator in
    let (resets, hr) = demo_reset-Configured values demo_reset in
    (
      record {
        positive = positive_paths_lem values peer_paths positive;
        trusted_proxy = proxy_lem values namespace proxy;
        demo_mint = (mints, hm, (validate_nats_demo_mint_peer_iff values namespace hm).0 demo_mint);
        simulator = (simulators, hs, (validate_simulator_peer_iff values namespace hs).0 simulator);
        demo_reset = (resets, hr, (validate_demo_reset_peer_iff values hr).0 demo_reset);
      },
      profile,
    )
