-- ===== src/Crypto.antt =====
-- What the relay takes from Go's crypto packages: AES-GCM and Ed25519, as parameters with the laws
-- that it relies on.
use spectre_relay.Prelude.{
  ℕ, ◌≡◌, Bool, true, ◌||◌, Option, none, some, if◌then◌else◌, ◌==◌, length, Bytes, Error, other,
}

-- cipher.AEAD over AES. `seal` and `open` are without additional data.
pub record Aead : Type 0 where
  pub nonce_size : ℕ
  pub seal : Bytes → Bytes → Bytes → Bytes
  pub open_sealed : Bytes → Bytes → Bytes → Option Bytes
  pub open-seal :
      (key nonce plain : Bytes)
      → length nonce ≡ nonce_size
      → open_sealed key nonce (seal key nonce plain) ≡ some plain

-- aes.NewCipher accepts keys of 16, 24 and 32 bytes; cipher.NewGCM accepts every AES block.
unfoldable pub new_gcm : Bytes → Option Error
new_gcm key =
    if length key == 16 || (length key == 24 || length key == 32) then none else some other

-- crypto/ed25519: keys, messages and signatures are bytes. `IsPrivate` holds of the private keys
-- that `GenerateKey` returns; any 64 bytes may be used as one, but what they sign need not verify.
pub record Ed25519 : Type 1 where
  pub IsPrivate : Bytes → Type 0
  pub public : Bytes → Bytes
  pub sign : Bytes → Bytes → Bytes
  pub verify : Bytes → Bytes → Bytes → Bool
  pub length-private : (priv : Bytes) → IsPrivate priv → length priv ≡ 64
  pub verify-sign :
      (priv message : Bytes)
      → IsPrivate priv
      → verify (public priv) message (sign priv message) ≡ true
  pub length-public : (priv : Bytes) → length priv ≡ 64 → length (public priv) ≡ 32
  pub length-sign : (priv message : Bytes) → length priv ≡ 64 → length (sign priv message) ≡ 64
