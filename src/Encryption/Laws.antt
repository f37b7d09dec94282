-- ===== src/Encryption/Laws.antt =====
-- What encryption promises.
use safe_client_libs.Shared.{◌≡◌, ◌≢◌, Option, none, some, arith}
use safe_client_libs.External.Types.{Types}
use safe_client_libs.External.Protocol.{Bytes, Result}
use safe_client_libs.External.Cipher.{CipherApi, SymmetricEnc}
use safe_client_libs.Errors.{CoreError}
use safe_client_libs.Exec.{ok}
use safe_client_libs.Encryption.{symmetric_encrypt, symmetric_decrypt, sym_enc_nonce_len}

-- What the crates document: a sealed text is opened by its key and nonce, an encoding is decoded.
pub record IsCipher {T : Types} (C : CipherApi T) : Type 0 where
  pub unseal-seal :
      (key nonce plain : Bytes) → C.unseal key nonce (C.seal key nonce plain) ≡ some plain
  pub deserialise-serialise :
      (enc : SymmetricEnc) (bytes : Bytes)
      → C.serialise_enc enc ≡ Result.ok bytes
      → C.deserialise_enc bytes ≡ Result.ok enc

-- And that a text does not open under another key than the one that sealed it.
pub record IsAuthentic {T : Types} (C : CipherApi T) : Type 0 where
  pub unseal-seal-other :
      (key other nonce plain : Bytes)
      → key ≢ other
      → C.unseal other nonce (C.seal key nonce plain) ≡ none

module _ {T : Types} (C : CipherApi T) where
  -- What an encrypted text is: the encoding of some nonce and of the text, sealed with it.
  symmetric_encrypt-eq-ok :
      (plain key : Bytes) (given : Option Bytes) (rng : T.Rng) (bytes : Bytes)
      → (symmetric_encrypt C plain key given rng).0 ≡ ok bytes
      → (nonce : Bytes) × (C.serialise_enc
            (record { nonce = nonce; cipher_text = C.seal key nonce plain })
          ≡ Result.ok bytes)
  unfolding symmetric_encrypt
  symmetric_encrypt-eq-ok plain key (some nonce) rng bytes h = (nonce, ground arith)
  symmetric_encrypt-eq-ok plain key none rng bytes h =
      ((C.random_bytes sym_enc_nonce_len rng).0, ground arith)

  module _ (cipher : IsCipher C) where
    -- If the cipher opens what it has sealed, a text that has been encrypted with a key, under any
    -- nonce, is decrypted by that key.
    pub symmetric_decrypt-symmetric_encrypt :
        (plain key : Bytes) (given : Option Bytes) (rng : T.Rng) (bytes : Bytes)
        → (symmetric_encrypt C plain key given rng).0 ≡ ok bytes
        → symmetric_decrypt C bytes key ≡ Result.ok plain
    unfolding symmetric_decrypt
    symmetric_decrypt-symmetric_encrypt plain key given rng bytes h =
        let (nonce, written) = symmetric_encrypt-eq-ok plain key given rng bytes h in
        rw (
          cipher.deserialise-serialise _ bytes written,
          cipher.unseal-seal key nonce plain,
          symmetric_decrypt,
        )

    -- A text that has been encrypted with one key does not decrypt under another one.
    pub decrypt_other :
        (plain key other : Bytes) (given : Option Bytes) (rng : T.Rng) (bytes : Bytes)
        → IsAuthentic C
        → key ≢ other
        → (symmetric_encrypt C plain key given rng).0 ≡ ok bytes
        → symmetric_decrypt C bytes other ≡ Result.err CoreError.symmetric_decipher_failure
    unfolding symmetric_decrypt
    decrypt_other plain key other given rng bytes authentic ne h =
        let (nonce, written) = symmetric_encrypt-eq-ok plain key given rng bytes h in
        rw (
          cipher.deserialise-serialise _ bytes written,
          authentic.unseal-seal-other key other nonce plain ne,
          symmetric_decrypt,
        )
