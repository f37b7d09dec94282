-- ===== src/Utils.antt =====
-- Random texts, the secrets of an account and the texts of binary data (src/utils/mod.rs), and the
-- asymmetric keys that are shared (src/crypto.rs). `random` draws an item, and the texts of numbers
-- are those of `std`.
use safe_client_libs.Shared.{
  ℕ, zero, suc, ◌-◌, String, ◌<>◌, Option, none, some, List, [], ◌∷◌, length, take, ltb, nat_beq,
  if◌then◌else◌,
}
use safe_client_libs.External.Types.{Types}
use safe_client_libs.External.Protocol.{Bytes, Result}
use safe_client_libs.Errors.{CoreError, from_serialisation}

abbrev pub sha3_512_hash_len : ℕ
sha3_512_hash_len = 64

module _ {A Rng : Type 0} (random : Rng → A × Rng) where
  -- `generate_random_vector`, and `generate_readable_string` for alphanumeric characters
  unfoldable pub generate_random_vector : ℕ → Rng → List A × Rng
  generate_random_vector zero rng = ([], rng)
  generate_random_vector (suc length) rng =
      let (item, rng') = random rng in
      let (items, rng₂) = generate_random_vector length rng' in (item ∷ items, rng₂)

module _ {Rng : Type 0} (random : Rng → ℕ × Rng) where
  abbrev pub keep : ℕ → Option (List ℕ) × Rng → Option (List ℕ) × Rng
  keep c (none, rng) = (none, rng)
  keep c (some text, rng) = (some (c ∷ text), rng)

  -- A character is left out if it is 0. `none` is a draw of more characters than there is fuel.
  unfoldable pub generate_random_string : ℕ → ℕ → Rng → Option (List ℕ) × Rng
  generate_random_string fuel zero rng = (some [], rng)
  generate_random_string zero (suc length) rng = (none, rng)
  generate_random_string (suc fuel) (suc length) rng =
      let (c, rng') = random rng in
      let again = generate_random_string fuel (suc length) rng' in
      let next = keep c (generate_random_string fuel length rng') in
      if nat_beq c 0 then again else next

abbrev pub drop : ℕ → Bytes → Bytes
drop zero bytes = bytes
drop (suc n) [] = []
drop (suc n) (_ ∷ bytes) = drop n bytes

-- Password, keyword and PIN. `sha3_512` gives 64 bytes.
unfoldable pub derive_secrets : (Bytes → Bytes) → Bytes → Bytes → Bytes × Bytes × Bytes
derive_secrets sha3_512 acc_locator acc_password =
    let locator_hash = sha3_512 acc_locator in
    (sha3_512 acc_password, locator_hash, sha3_512 (drop 32 locator_hash))

-- `hex` is the text of a byte by `{:02x}`, and `debug` that of all bytes by `{:?}`.
module _ (hex : ℕ → String) (debug : Bytes → String) where
  abbrev pub spaced : Bytes → String
  spaced [] = ""
  spaced (b ∷ []) = hex b
  spaced (b ∷ c ∷ bytes) = hex b <> (" " <> spaced (c ∷ bytes))

  unfoldable pub bin_data_format : Bytes → String
  bin_data_format bytes =
      if ltb (length bytes) 8
      then "[ " <> (debug bytes <> " ]")
      else "[ "
        <> (spaced (take 4 bytes) <> (".." <> (spaced (drop (length bytes - 4) bytes) <> " ]")))

-- `shared_box`: the secret keys of threshold_crypto.
module _ {T : Types} {Key : Type 0} where
  abbrev pub from_raw : (Bytes → Result T.SerialisationError Key) → Bytes → Result (CoreError T) Key
  from_raw deserialise bytes = elim (deserialise bytes) [
    | Result.ok key ↦ Result.ok key
    | Result.err e ↦ Result.err (from_serialisation e)
  ]

module _ {Key Public Rng : Type 0} where
  abbrev pub gen_keypair : (Rng → Key × Rng) → (Key → Public) → Rng → Key × Public × Rng
  gen_keypair random public_key rng = let (sk, rng') = random rng in (sk, public_key sk, rng')
