-- ===== src/Core/Key.antt =====
-- ferro-wg-core/src/key.rs: the three key types and their base64 form. Generating keys and the
-- X25519 arithmetic are the x25519_dalek crate's and are left out.
use ferro_wg.Prelude.{
  ℕ, ◌<◌, List, ◌≡◌, ◌==◌, nat_eq, if◌then◌else◌, Text, Result, ok, err, ◌>>=◌, map_err, length,
  All,
}
use ferro_wg.External.{External}
use ferro_wg.Text.Trim.{trim}
use ferro_wg.Core.Error.{KeyError, invalid_base64, invalid_length}

pub record PrivateKey : Type 0 where
  pub bytes : List ℕ

pub record PublicKey : Type 0 where
  pub bytes : List ℕ

pub record PresharedKey : Type 0 where
  pub bytes : List ℕ

-- What the type `[u8; 32]` says of its value.
pub record IsKeyBytes (bytes : List ℕ) : Type 0 where
  pub count : length bytes ≡ 32
  pub byte : All (λ b. b < 256) bytes

module _ (ext : External) where
  unfoldable pub decode_key_bytes : Text → Result (List ℕ) KeyError
  decode_key_bytes s = do
    bytes ← map_err invalid_base64 (ext.base64_decode (trim s))
    if length bytes == 32 then ok bytes else err (invalid_length 32 (length bytes))

  unfoldable pub private_from_base64 : Text → Result PrivateKey KeyError
  private_from_base64 s = do bytes ← decode_key_bytes s; ok (record { bytes = bytes })

  unfoldable pub public_from_base64 : Text → Result PublicKey KeyError
  public_from_base64 s = do bytes ← decode_key_bytes s; ok (record { bytes = bytes })

  unfoldable pub preshared_from_base64 : Text → Result PresharedKey KeyError
  preshared_from_base64 s = do bytes ← decode_key_bytes s; ok (record { bytes = bytes })

  unfoldable pub private_to_base64 : PrivateKey → Text
  private_to_base64 k = ext.base64_encode k.bytes

  unfoldable pub public_to_base64 : PublicKey → Text
  public_to_base64 k = ext.base64_encode k.bytes

  unfoldable pub preshared_to_base64 : PresharedKey → Text
  preshared_to_base64 k = ext.base64_encode k.bytes
