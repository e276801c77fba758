-- ===== src/Core/Tunnel/Manager.antt =====
-- ferro-wg-core/src/tunnel/mod.rs: the connections that are up, and how they come up and go down.
-- `connections` is a map, listed in the order of insertion. A packet loop is known by the handle
-- that `spawn_loop` gives: its ends of the shutdown and of the statistics channel.
use ferro_wg.Prelude.{
  ℕ, Bool, true, false, List, [], ◌∷◌, filter, not, Text, Option, none, some, ◌==◌, nat_eq, text_eq,
  lookup,
}
use ferro_wg.Core.Error.{BackendKind}
use ferro_wg.Core.Config.{PeerConfig, AppConfig}
use ferro_wg.Core.Tunnel.Dns.State.{DnsState}

pub record ActiveConnection : Type 0 where
  pub packet_loop : ℕ
  pub backend_kind : BackendKind
  pub tun_name : Text
  pub endpoint : Option Text
  pub dns_state : Option DnsState

pub record TunnelManager : Type 0 where
  pub config : AppConfig
  pub connections : List (Text × ActiveConnection)

unfoldable pub new_manager : AppConfig → TunnelManager
new_manager config = record { config = config; connections = [] }

unfoldable pub reload_config : AppConfig → TunnelManager → TunnelManager
reload_config config m = record m { config = config }

-- `HashMap::remove`
unfoldable pub remove_entry : Text → List (Text × ActiveConnection) → List (Text × ActiveConnection)
remove_entry name conns = filter (λ c. not (c.0 == name)) conns

unfoldable pub is_active : Text → List (Text × ActiveConnection) → Bool
is_active name conns = elim (lookup name conns) [ none ↦ false | some _ ↦ true ]

unfoldable pub first_peer : List PeerConfig → Option PeerConfig
first_peer [] = none
first_peer (p ∷ _) = some p
