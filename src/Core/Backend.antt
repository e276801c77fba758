-- ===== src/Core/Backend.antt =====
-- ferro-wg-core/src/backend/mod.rs: what a backend is made from, and what it answers.
use ferro_wg.Prelude.{ℕ, Text, Option}
use ferro_wg.Core.Key.{PrivateKey, PublicKey, PresharedKey}

pub record TunnelConfig : Type 0 where
  pub private_key : PrivateKey
  pub peer_public_key : PublicKey
  pub preshared_key : Option PresharedKey
  pub persistent_keepalive : Option ℕ
  pub index : ℕ

-- The number of bytes that were written into the caller's buffer.
pub data PacketAction : Type 0 where
  write_to_tun write_to_network : ℕ → PacketAction
  done : PacketAction
  failed : Text → PacketAction
