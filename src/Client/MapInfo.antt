-- ===== src/Client/MapInfo.antt =====
-- `MapInfo` (src/client/map_info.rs): where a map is, and how its entries are encrypted.
pub mod Entries
pub mod Laws
use safe_client_libs.Shared.{ℕ, Option, none, some, ◌++◌, take}
use safe_client_libs.External.Types.{Types}
use safe_client_libs.External.Protocol.{Bytes, XorName, Result, MapAddress}
use safe_client_libs.External.Cipher.{CipherApi}
use safe_client_libs.Errors.{CoreError}
use safe_client_libs.Exec.{Exec, Exit, ok, pure, ◌>>=◌}
use safe_client_libs.Encryption.{
  symmetric_encrypt, symmetric_decrypt, gen_key, generate_nonce, sym_enc_nonce_len,
}

-- `MapKind` of `safe_nd`
pub data MapKind : Type 0 where
  seq unseq : MapKind

-- `MapAddress::from_kind`, and what an address consists of
abbrev pub from_kind : MapKind → XorName → ℕ → MapAddress
from_kind MapKind.seq name tag = MapAddress.seq name tag
from_kind MapKind.unseq name tag = MapAddress.unseq name tag

abbrev pub name_of : MapAddress → XorName
name_of (MapAddress.seq name tag) = name
name_of (MapAddress.unseq name tag) = name

abbrev pub tag_of : MapAddress → ℕ
tag_of (MapAddress.seq name tag) = tag
tag_of (MapAddress.unseq name tag) = tag

abbrev pub kind_of : MapAddress → MapKind
kind_of (MapAddress.seq name tag) = MapKind.seq
kind_of (MapAddress.unseq name tag) = MapKind.unseq

-- A key with a nonce.
abbrev pub EncInfo : Type 0
EncInfo = Bytes × Bytes

pub record MapInfo : Type 0 where
  pub address : MapAddress
  pub enc_info : Option EncInfo
  pub new_enc_info : Option EncInfo

unfoldable pub new_private : MapAddress → EncInfo → MapInfo
new_private address enc_info = record {
  address = address;
  enc_info = some enc_info;
  new_enc_info = none;
}

unfoldable pub new_public : MapAddress → MapInfo
new_public address = record { address = address; enc_info = none; new_enc_info = none }

unfoldable pub name : MapInfo → XorName
name info = name_of info.address

unfoldable pub type_tag : MapInfo → ℕ
type_tag info = tag_of info.address

unfoldable pub kind : MapInfo → MapKind
kind info = kind_of info.address

-- The first and the second of a pair, if there is one.
abbrev pub first_of : Option EncInfo → Option Bytes
first_of none = none
first_of (some (key, nonce)) = some key

abbrev pub second_of : Option EncInfo → Option Bytes
second_of none = none
second_of (some (key, nonce)) = some nonce

unfoldable pub enc_key : MapInfo → Option Bytes
enc_key info = first_of info.enc_info

unfoldable pub nonce : MapInfo → Option Bytes
nonce info = second_of info.enc_info

-- The information that encrypts: the new one, else the current one.
abbrev pub current : MapInfo → Option EncInfo
current info = elim info.new_enc_info [ some enc ↦ some enc | none ↦ info.enc_info ]

module _ {T : Types} (C : CipherApi T) where
  -- `XorName` is 32 bytes.
  abbrev pub random_xor_name : T.Rng → Exit T XorName × T.Rng
  random_xor_name rng = let (name, rest) = C.random_bytes 32 rng in (ok name, rest)

  unfoldable pub random_private : MapKind → ℕ → Exec T T.Rng MapInfo
  unfolding new_private
  random_private kind type_tag = do
    name ← random_xor_name
    key ← gen_key C
    nonce ← generate_nonce C
    pure (new_private (from_kind kind name type_tag) (key, nonce))

  unfoldable pub random_public : MapKind → ℕ → Exec T T.Rng MapInfo
  unfolding new_public
  random_public kind type_tag = do
    name ← random_xor_name
    pure (new_public (from_kind kind name type_tag))

  -- The free function: the nonce is drawn from the text and the seed.
  abbrev pub enc_entry_key_with : Bytes → Bytes → Bytes → T.Rng → Exit T Bytes × T.Rng
  enc_entry_key_with plain_text key seed =
      symmetric_encrypt C plain_text key
        (some (take sym_enc_nonce_len (C.sha3_256 (plain_text ++ seed))))

  abbrev pub enc_key_by : Option EncInfo → Bytes → T.Rng → Exit T Bytes × T.Rng
  enc_key_by none plain_text = pure plain_text
  enc_key_by (some (key, seed)) plain_text = enc_entry_key_with plain_text key seed

  abbrev pub enc_value_by : Option EncInfo → Bytes → T.Rng → Exit T Bytes × T.Rng
  enc_value_by none plain_text = pure plain_text
  enc_value_by (some (key, _)) plain_text = symmetric_encrypt C plain_text key none

  unfoldable pub enc_entry_key : MapInfo → Bytes → Exec T T.Rng Bytes
  enc_entry_key info plain_text = enc_key_by (current info) plain_text

  unfoldable pub enc_entry_value : MapInfo → Bytes → Exec T T.Rng Bytes
  enc_entry_value info plain_text = enc_value_by (current info) plain_text

  abbrev pub decrypt_by : Option EncInfo → Bytes → Result (CoreError T) Bytes
  decrypt_by none cipher = Result.ok cipher
  decrypt_by (some (key, _)) cipher = symmetric_decrypt C cipher key

  -- `if let Ok(plain) = … { return Ok(plain) }`
  abbrev pub or_else :
      Result (CoreError T) Bytes → Result (CoreError T) Bytes → Result (CoreError T) Bytes
  or_else (Result.ok plain) later = Result.ok plain
  or_else (Result.err _) later = later

  abbrev pub decrypt_new :
      Option EncInfo → Result (CoreError T) Bytes → Bytes → Result (CoreError T) Bytes
  decrypt_new none later cipher = later
  decrypt_new (some (key, _)) later cipher = or_else (symmetric_decrypt C cipher key) later

  unfoldable pub decrypt : MapInfo → Bytes → Result (CoreError T) Bytes
  decrypt info cipher = decrypt_new info.new_enc_info (decrypt_by info.enc_info cipher) cipher

  abbrev pub with_fresh : MapInfo → T.Rng → Exit T MapInfo × T.Rng
  with_fresh info = do
    key ← gen_key C
    nonce ← generate_nonce C
    pure (record info { new_enc_info = some (key, nonce) })

  -- `self.enc_info.is_some() && self.new_enc_info.is_none()`
  unfoldable pub start_new_enc_info : MapInfo → Exec T T.Rng MapInfo
  start_new_enc_info info = elim info.enc_info [
    | none ↦ pure info
    | some _ ↦ elim info.new_enc_info [ some _ ↦ pure info | none ↦ with_fresh info ]
  ]

unfoldable pub commit_new_enc_info : MapInfo → MapInfo
commit_new_enc_info info = elim info.new_enc_info [
  | none ↦ info
  | some new_enc_info ↦ record info { enc_info = some new_enc_info; new_enc_info = none }
]
