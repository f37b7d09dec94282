-- ===== src/Client/MapInfo/Laws.antt =====
-- What is encrypted for an entry is decrypted again, with the same information, and through the two
-- phases in which a new key takes over.
pub mod Insertion
pub mod Encrypted
pub mod RoundTrip
use safe_client_libs.Shared.{◌≡◌, ◌≢◌, refl, ap, ◌∙◌, Option, none, some, arith}
use safe_client_libs.External.Types.{Types}
use safe_client_libs.External.Protocol.{Bytes, Result, MapAddress}
use safe_client_libs.External.Cipher.{CipherApi}
use safe_client_libs.Exec.{Exit, ok, ok-injective}
use safe_client_libs.Encryption.{symmetric_encrypt, symmetric_decrypt, gen_key, sym_enc_key_len}
use safe_client_libs.Encryption.Laws.{
  IsCipher, IsAuthentic, symmetric_decrypt-symmetric_encrypt, decrypt_other,
}
use safe_client_libs.Client.MapInfo.{
  MapInfo, EncInfo, first_of, current, enc_entry_key, enc_entry_value, enc_key_by, enc_value_by,
  decrypt_by, decrypt, start_new_enc_info, commit_new_enc_info,
}

module _ {T : Types} (C : CipherApi T) where
  -- The nonce of a key comes from the key itself: the same key is encrypted to the same text at every
  -- time, and no random bytes are taken.
  enc_entry_key_repeats :
      (info : MapInfo) (plain : Bytes) (rng rng' : T.Rng)
      → enc_entry_key C info plain rng ≡ ((enc_entry_key C info plain rng').0, rng)
  unfolding enc_entry_key symmetric_encrypt
  enc_entry_key_repeats info plain rng rng' = ground arith

  module _ (cipher : IsCipher C) where
    enc_value_by-decrypt_by :
        (enc : Option EncInfo) (plain : Bytes) (rng : T.Rng) (bytes : Bytes)
        → (enc_value_by C enc plain rng).0 ≡ ok bytes
        → decrypt_by C enc bytes ≡ Result.ok plain
    enc_value_by-decrypt_by none plain rng bytes h = cc
    enc_value_by-decrypt_by (some (key, seed)) plain rng bytes h =
        symmetric_decrypt-symmetric_encrypt C cipher plain key none rng bytes h

    enc_key_by-decrypt_by :
        (enc : Option EncInfo) (plain : Bytes) (rng : T.Rng) (bytes : Bytes)
        → (enc_key_by C enc plain rng).0 ≡ ok bytes
        → decrypt_by C enc bytes ≡ Result.ok plain
    enc_key_by-decrypt_by none plain rng bytes h = cc
    enc_key_by-decrypt_by (some (key, seed)) plain rng bytes h =
        symmetric_decrypt-symmetric_encrypt C cipher plain key _ rng bytes h

    -- What the current information decrypts, `decrypt` decrypts, before a commit and after it.
    decrypt-current :
        (info : MapInfo) (bytes plain : Bytes)
        → decrypt_by C (current info) bytes ≡ Result.ok plain
        → (decrypt C info bytes ≡ Result.ok plain)
          × (decrypt C (commit_new_enc_info info) bytes ≡ Result.ok plain)
    unfolding decrypt commit_new_enc_info
    decrypt-current info bytes plain h = (ground arith, ground arith)

    -- If the cipher opens what it has sealed, the value of an entry that has been encrypted is
    -- decrypted, with the same information, and with the one that a commit makes of it.
    pub decrypt-enc_entry_value :
        (info : MapInfo) (plain : Bytes) (rng : T.Rng) (bytes : Bytes)
        → (enc_entry_value C info plain rng).0 ≡ ok bytes
        → (decrypt C info bytes ≡ Result.ok plain)
          × (decrypt C (commit_new_enc_info info) bytes ≡ Result.ok plain)
    unfolding enc_entry_value
    decrypt-enc_entry_value info plain rng bytes h =
        decrypt-current info bytes plain (enc_value_by-decrypt_by (current info) plain rng bytes h)

    -- If the cipher opens what it has sealed, the key of an entry that has been encrypted is
    -- decrypted, with the same information, and with the one that a commit makes of it.
    pub decrypt-enc_entry_key :
        (info : MapInfo) (plain : Bytes) (rng : T.Rng) (bytes : Bytes)
        → (enc_entry_key C info plain rng).0 ≡ ok bytes
        → (decrypt C info bytes ≡ Result.ok plain)
          × (decrypt C (commit_new_enc_info info) bytes ≡ Result.ok plain)
    unfolding enc_entry_key
    decrypt-enc_entry_key info plain rng bytes h =
        decrypt-current info bytes plain (enc_key_by-decrypt_by (current info) plain rng bytes h)

    -- If the cipher opens what it has sealed, the key and the value of an entry that have been
    -- encrypted are decrypted, with the same information, and with the one that a commit makes of
    -- it.
    pub decrypt-enc_entry :
        (info : MapInfo) (key value : Bytes) (rng rng' : T.Rng) (key_text value_text : Bytes)
        → (enc_entry_key C info key rng).0 ≡ ok key_text
        → (enc_entry_value C info value rng').0 ≡ ok value_text
        → let committed = commit_new_enc_info info in
          ((decrypt C info key_text ≡ Result.ok key)
            × (decrypt C info value_text ≡ Result.ok value))
          × ((decrypt C committed key_text ≡ Result.ok key)
              × (decrypt C committed value_text ≡ Result.ok value))
    decrypt-enc_entry info key value rng rng' key_text value_text h h' =
        let opened = decrypt-enc_entry_key info key rng key_text h in
        let opened' = decrypt-enc_entry_value info value rng' value_text h' in
        ((opened.0, opened'.0), (opened.1, opened'.1))

    -- The three fields of `info`, by cases.
    decrypt-started :
        (a : MapAddress) (enc new : Option EncInfo) (info' : MapInfo) (plain : Bytes)
        (rng rng' : T.Rng) (bytes : Bytes)
        → IsAuthentic C
        → (start_new_enc_info C (record { address = a; enc_info = enc; new_enc_info = new }) rng').0
          ≡ ok info'
        → first_of enc ≢ first_of info'.new_enc_info
        → (enc_entry_value C
            (record { address = a; enc_info = enc; new_enc_info = new })
            plain
            rng).0
          ≡ ok bytes
        → decrypt C info' bytes ≡ Result.ok plain
    unfolding start_new_enc_info enc_entry_value decrypt
    decrypt-started a none new info' plain rng rng' bytes authentic started other h =
        rw (← ok-injective T _ _ started)
          (decrypt-enc_entry_value (record { address = a; enc_info = none; new_enc_info = new })
            plain rng bytes h).0
    decrypt-started a (some enc) (some new) info' plain rng rng' bytes authentic started other h =
        rw (← ok-injective T _ _ started)
          (decrypt-enc_entry_value
            (record { address = a; enc_info = some enc; new_enc_info = some new }) plain rng bytes
            h).0
    decrypt-started a (some (key, seed)) none info' plain rng rng' bytes authentic started other h =
        let fresh : Bytes = (C.random_bytes sym_enc_key_len rng').0 in
        let is_other : key ≢ fresh = λ e. other (
          ap some e ∙ ap (λ (i : MapInfo). first_of i.new_enc_info) (ok-injective T _ _ started)) in
        rw (← ok-injective T _ _ started) (
          rw (decrypt_other C cipher plain key fresh none rng bytes authentic is_other h, decrypt)
            (symmetric_decrypt-symmetric_encrypt C cipher plain key none rng bytes h))

    -- If the cipher opens what it has sealed, and no text opens under another key than the one that
    -- sealed it, a value that was encrypted before a new key is chosen is still decrypted after
    -- that, provided that the new key is another one.
    pub decrypt-start_new_enc_info :
        (info info' : MapInfo) (plain : Bytes) (rng rng' : T.Rng) (bytes : Bytes)
        → IsAuthentic C
        → (start_new_enc_info C info rng').0 ≡ ok info'
        → first_of info.enc_info ≢ first_of info'.new_enc_info
        → (enc_entry_value C info plain rng).0 ≡ ok bytes
        → decrypt C info' bytes ≡ Result.ok plain
    decrypt-start_new_enc_info info info' plain rng rng' bytes authentic started other h =
        decrypt-started info.address info.enc_info info.new_enc_info info' plain rng rng' bytes
          authentic started other h
