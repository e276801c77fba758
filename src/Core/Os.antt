-- ===== src/Core/Os.antt =====
-- The operating system and the libraries that stand for it: `std::process::Command`, `std::fs`,
-- tokio's sockets and tasks, the `tun` crate, and the backends' own crates. They are a parameter
-- of the model. What they act on is `World`; a handle (a device, a socket, a backend, a task) is a
-- number. Text that a program writes is taken as `String::from_utf8_lossy` gives it.
use ferro_wg.Prelude.{ℕ, Bool, Text, List, Result, ok, ◌≡◌}
use ferro_wg.Prelude.Effect.{Eff}
use ferro_wg.External.{IpAddr}
use ferro_wg.Core.Error.{WgError, BackendKind}
use ferro_wg.Core.Stats.{TunnelStats}
use ferro_wg.Core.Backend.{TunnelConfig}

pub record SocketAddr : Type 0 where
  pub ip : IpAddr
  pub port : ℕ

-- `std::process::Output`
pub record Output : Type 0 where
  pub success : Bool
  pub stdout : Text
  pub stderr : Text

-- `target_os`, as the conditional compilation tells it apart
pub data Platform : Type 0 where
  macos linux other_os : Platform

pub record Os : Type 1 where
  pub World : Type 0
  pub platform : Platform
  pub run_command : Text → List Text → Eff World Text Output
  pub read_to_string : Text → World → Result Text Text
  pub write_file : Text → Text → Eff World Text (Unit {0})
  pub rename : Text → Text → Eff World Text (Unit {0})
  -- `symlink_metadata(path).map(|m| m.file_type().is_symlink())`
  pub is_symlink : Text → World → Result Bool Text
  pub lookup_host : Text → Eff World Text (List SocketAddr)
  pub parse_socket_addr : Text → Result SocketAddr Text
  pub create_as_async : Eff World Text ℕ
  pub tun_name : ℕ → World → Result Text Text
  pub bind_udp : SocketAddr → Eff World Text ℕ
  -- the cargo features, and the constructors of the backends
  pub has_feature : BackendKind → Bool
  pub new_backend : BackendKind → TunnelConfig → Eff World WgError ℕ
  -- a spawned packet loop over a device, a socket, a backend and the endpoint
  pub spawn_loop : ℕ → ℕ → ℕ → SocketAddr → World → ℕ × World
  -- the send to a packet loop's shutdown channel, and the value that its statistics channel holds
  pub send_shutdown : ℕ → World → World
  pub borrow_stats : ℕ → World → TunnelStats

-- Files keep what was written to them last.
pub record FileLaws (os : Os) : Type 0 where
  pub read_written :
      (path text : Text) (w next : os.World)
      → os.write_file path text w ≡ (ok tt, next)
      → os.read_to_string path next ≡ ok text
  pub read_renamed :
      (from to text : Text) (w next : os.World)
      → os.rename from to w ≡ (ok tt, next)
      → os.read_to_string from w ≡ ok text
      → os.read_to_string to next ≡ ok text
