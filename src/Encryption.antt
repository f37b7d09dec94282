-- ===== src/Encryption.antt =====
-- Symmetric encryption (src/utils/mod.rs), and the keys that are shared (src/crypto.rs). The state is
-- the source of random bytes.
pub mod Laws
use safe_client_libs.Shared.{ℕ, Option, none, some, length, nat_beq, if◌then◌else◌}
use safe_client_libs.External.Types.{Types}
use safe_client_libs.External.Protocol.{Bytes, Result}
use safe_client_libs.External.Cipher.{CipherApi, SymmetricEnc}
use safe_client_libs.Errors.{CoreError, from_serialisation}
use safe_client_libs.Exec.{Exec, Exit, ok, pure, panics, try, ok_or, ◌>>=◌}

abbrev pub sym_enc_key_len : ℕ
sym_enc_key_len = 32

abbrev pub sym_enc_nonce_len : ℕ
sym_enc_nonce_len = 16

-- `shared_secretbox::Key::from_slice`: the conversion to an array is unwrapped.
unfoldable pub from_slice : (T : Types) → Bytes → Exec T T.Rng (Option Bytes)
from_slice T bytes = if nat_beq (length bytes) sym_enc_key_len then pure (some bytes) else panics

module _ {T : Types} (C : CipherApi T) where
  abbrev pub generate_sym_enc_key : T.Rng → Exit T Bytes × T.Rng
  generate_sym_enc_key rng = let (key, rest) = C.random_bytes sym_enc_key_len rng in (ok key, rest)

  abbrev pub generate_nonce : T.Rng → Exit T Bytes × T.Rng
  generate_nonce rng = let (nonce, rest) = C.random_bytes sym_enc_nonce_len rng in (ok nonce, rest)

  -- `shared_secretbox::gen_key`
  abbrev pub gen_key : T.Rng → Exit T Bytes × T.Rng
  gen_key = generate_sym_enc_key

  abbrev pub or_random : Option Bytes → T.Rng → Exit T Bytes × T.Rng
  or_random (some nonce) = pure nonce
  or_random none = generate_nonce

  unfoldable pub symmetric_encrypt : Bytes → Bytes → Option Bytes → Exec T T.Rng Bytes
  symmetric_encrypt plain_text secret_key given = do
    nonce ← or_random given
    let cipher_text = C.seal secret_key nonce plain_text
    try from_serialisation (C.serialise_enc (record { nonce = nonce; cipher_text = cipher_text }))

  -- `?` on the deserialisation, and the failure of `open`.
  unfoldable pub symmetric_decrypt : Bytes → Bytes → Result (CoreError T) Bytes
  symmetric_decrypt cipher_text secret_key = elim (C.deserialise_enc cipher_text) [
    | Result.err e ↦ Result.err (from_serialisation e)
    | Result.ok enc ↦ elim (C.unseal secret_key enc.nonce enc.cipher_text) [
      | some plain ↦ Result.ok plain
      | none ↦ Result.err CoreError.symmetric_decipher_failure
    ]
  ]
