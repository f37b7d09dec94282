-- ===== src/External/Cipher.antt =====
-- The functions of other crates that encryption calls: AES-SIV of miscreant, SHA3 of tiny_keccak,
-- bincode and rand.
use safe_client_libs.Shared.{ℕ, Option}
use safe_client_libs.External.Types.{Types}
use safe_client_libs.External.Protocol.{Bytes, Result}

-- `SymmetricEnc` (src/utils/mod.rs): what an encrypted text is written as.
pub record SymmetricEnc : Type 0 where
  pub nonce : Bytes
  pub cipher_text : Bytes

pub record CipherApi (T : Types) : Type 0 where
  -- the key, the nonce and the text; no associated data
  pub seal : Bytes → Bytes → Bytes → Bytes
  pub unseal : Bytes → Bytes → Bytes → Option Bytes
  pub sha3_256 : Bytes → Bytes
  pub serialise_enc : SymmetricEnc → Result T.SerialisationError Bytes
  pub deserialise_enc : Bytes → Result T.SerialisationError SymmetricEnc
  -- `rand::random` of an array of this length
  pub random_bytes : ℕ → T.Rng → Bytes × T.Rng
