-- ===== src/Examples/Entries.antt =====
-- A cipher for tests, and runs of the encryption of map entries.
use mathlib.Core.Path.{subst}
use safe_client_libs.Shared.{
  ℕ, zero, suc, ◌+◌, ◌≡◌, ◌≢◌, ◌↔◌, refl, Option, none, some, List, [], ◌∷◌, arith,
}
use safe_client_libs.Shared.{nat_beq, nat_beq_iff, if◌then◌else◌}
use safe_client_libs.External.Protocol.{Bytes, Result, MapAddress}
use safe_client_libs.External.Cipher.{CipherApi, SymmetricEnc}
use safe_client_libs.Exec.{Exit, ok}
use safe_client_libs.Encryption.{symmetric_encrypt, symmetric_decrypt}
use safe_client_libs.Encryption.Laws.{IsCipher, IsAuthentic, symmetric_decrypt-symmetric_encrypt}
use safe_client_libs.Client.MapInfo.{
  MapInfo, enc_entry_key, enc_entry_value, decrypt, start_new_enc_info, commit_new_enc_info,
}
use safe_client_libs.Client.MapInfo.Laws.{decrypt-enc_entry, decrypt-start_new_enc_info}
use safe_client_libs.Client.MapInfo.Laws.Insertion.{Has}
use safe_client_libs.Client.MapInfo.Laws.Encrypted.{Entry}
use safe_client_libs.Client.MapInfo.Laws.RoundTrip.{decrypt_entries-encrypt_entries}
use safe_client_libs.Client.MapInfo.Entries.{
  order_bytes, insert, encrypt_value, encrypt_onto, encrypt_entries, decrypt_entries,
}
use safe_client_libs.Examples.Toy.{toy}

-- The first text, each byte grown by one, then a zero, then the second text.
lock : Bytes → Bytes → Bytes
lock [] plain = 0 ∷ plain
lock (k ∷ key) plain = suc k ∷ lock key plain

-- What stands behind the zero, if the first text is the key.
unlock : Bytes → Bytes → Option Bytes
unlock [] (zero ∷ plain) = some plain
unlock (k ∷ key) (suc c ∷ cipher) =
    let rest = unlock key cipher in if nat_beq k c then rest else none
unlock _ _ = none

split : Bytes → Option (Bytes × Bytes)
split [] = none
split (zero ∷ rest) = some ([], rest)
split (suc c ∷ rest) = elim (split rest) [
  | none ↦ none
  | some (front, back) ↦ some (c ∷ front, back)
]

unlock-lock : (key plain : Bytes) → unlock key (lock key plain) ≡ some plain
unfolding lock unlock
unlock-lock [] plain = refl
unlock-lock (k ∷ key) plain = ground (arith, unlock-lock key plain, nat_beq_iff k k)

unlock_other : (key other plain : Bytes) → key ≢ other → unlock other (lock key plain) ≡ none
unfolding lock unlock
unlock_other [] [] plain ne = absurd (ne refl)
unlock_other [] (_ ∷ other) plain ne = refl
unlock_other (_ ∷ key) [] plain ne = refl
unlock_other (k ∷ key) (o ∷ other) plain ne =
    ground (arith, unlock_other key other plain, nat_beq_iff o k)

split-lock : (front back : Bytes) → split (lock front back) ≡ some (front, back)
unfolding lock split
split-lock [] back = refl
split-lock (c ∷ front) back = rw (split-lock front back, split) refl

read_enc : Option (Bytes × Bytes) → Result ℕ SymmetricEnc
read_enc none = Result.err 0
read_enc (some (nonce, text)) = Result.ok (record { nonce = nonce; cipher_text = text })

abbrev toy_cipher : CipherApi toy
toy_cipher = record {
  seal = λ key nonce plain. lock key plain;
  unseal = λ key nonce text. unlock key text;
  sha3_256 = λ bytes. bytes;
  serialise_enc = λ enc. Result.ok (lock enc.nonce enc.cipher_text);
  deserialise_enc = λ bytes. read_enc (split bytes);
  random_bytes = λ n rng. (rng ∷ [], rng + 1);
}

written : (a b : Bytes) → ◌≡◌ {A = Result ℕ Bytes} (Result.ok a) (Result.ok b) → a ≡ b
written a b h = cc

toy_cipher-IsCipher : IsCipher toy_cipher
unfolding read_enc
toy_cipher-IsCipher = record {
  unseal-seal = λ key nonce plain. unlock-lock key plain;
  deserialise-serialise = λ enc bytes h.
      subst (λ b. read_enc (split b) ≡ Result.ok enc) (written _ bytes h)
        (rw (split-lock enc.nonce enc.cipher_text, read_enc) refl);
}

toy_cipher-IsAuthentic : IsAuthentic toy_cipher
toy_cipher-IsAuthentic = record {
  unseal-seal-other = λ key other nonce plain ne. unlock_other key other plain ne;
}

-- Information with a key and a nonce.
abbrev private_info : MapInfo
private_info = record {
  address = MapAddress.seq [] 15;
  enc_info = some (7 ∷ [], 8 ∷ []);
  new_enc_info = none;
}

abbrev value_of : {A : Type 0} → A → Exit toy A → A
value_of other (ok a) = a
value_of other _ = other

symmetric_decrypt-symmetric_encrypt_example :
    symmetric_decrypt toy_cipher
      (value_of [] (symmetric_encrypt toy_cipher (5 ∷ []) (7 ∷ []) none 30).0)
      (7 ∷ [])
    ≡ Result.ok (5 ∷ [])
unfolding symmetric_encrypt
symmetric_decrypt-symmetric_encrypt_example =
    symmetric_decrypt-symmetric_encrypt toy_cipher toy_cipher-IsCipher (5 ∷ []) (7 ∷ []) none 30
      (value_of [] (symmetric_encrypt toy_cipher (5 ∷ []) (7 ∷ []) none 30).0) refl

decrypt-enc_entry_example :
    let key_text = value_of [] (enc_entry_key toy_cipher private_info (5 ∷ []) 30).0 in
    let value_text = value_of [] (enc_entry_value toy_cipher private_info (6 ∷ []) 30).0 in
    let committed = commit_new_enc_info private_info in
    ((decrypt toy_cipher private_info key_text ≡ Result.ok (5 ∷ []))
      × (decrypt toy_cipher private_info value_text ≡ Result.ok (6 ∷ [])))
    × ((decrypt toy_cipher committed key_text ≡ Result.ok (5 ∷ []))
        × (decrypt toy_cipher committed value_text ≡ Result.ok (6 ∷ [])))
unfolding enc_entry_key enc_entry_value symmetric_encrypt
decrypt-enc_entry_example =
    decrypt-enc_entry toy_cipher toy_cipher-IsCipher private_info (5 ∷ []) (6 ∷ []) 30 30
      (value_of [] (enc_entry_key toy_cipher private_info (5 ∷ []) 30).0)
      (value_of [] (enc_entry_value toy_cipher private_info (6 ∷ []) 30).0) refl refl

-- The same information, once a new key has been chosen.
abbrev renewed : MapInfo
renewed = record private_info { new_enc_info = some (90 ∷ [], 91 ∷ []) }

keys_differ : ◌≢◌ {A = Option Bytes} (some (7 ∷ [])) (some (90 ∷ []))
keys_differ h = ground arith

decrypt-start_new_enc_info_example :
    decrypt toy_cipher renewed (value_of [] (enc_entry_value toy_cipher private_info (5 ∷ []) 30).0)
    ≡ Result.ok (5 ∷ [])
unfolding enc_entry_value symmetric_encrypt start_new_enc_info
decrypt-start_new_enc_info_example =
    decrypt-start_new_enc_info toy_cipher toy_cipher-IsCipher private_info renewed (5 ∷ []) 30 90
      (value_of [] (enc_entry_value toy_cipher private_info (5 ∷ []) 30).0) toy_cipher-IsAuthentic
      refl keys_differ refl

abbrev two_entries : List Entry
two_entries =
    (1 ∷ [], record { value = 5 ∷ []; version = 0 })
    ∷ (2 ∷ [], record { value = 6 ∷ []; version = 3 })
    ∷ []

two_differs : ◌≢◌ {A = Bytes} (2 ∷ []) (1 ∷ [])
two_differs h = ground arith

decrypt_entries-encrypt_entries_example :
    (res : List Entry) × (decrypt_entries toy_cipher private_info
        (value_of [] (encrypt_entries toy_cipher private_info two_entries 30).0)
      ≡ Result.ok res)
    × ((g : Entry) → Has g res ↔ Has g two_entries)
unfolding encrypt_entries encrypt_onto encrypt_value enc_entry_key enc_entry_value symmetric_encrypt
    insert order_bytes
decrypt_entries-encrypt_entries_example =
    decrypt_entries-encrypt_entries toy_cipher private_info two_entries 30
      (value_of [] (encrypt_entries toy_cipher private_info two_entries 30).0) toy_cipher-IsCipher
      ((two_differs, tt), (tt, tt)) refl
