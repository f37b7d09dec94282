-- ===== src/Client/Blobs/Packing.antt =====
-- How the value of a blob is encrypted, packed and unpacked (src/client/blob_apis.rs). `storage` is
-- the storage for public blobs and the one for private ones. The loops run on fuel, and one that
-- goes on for longer is `blocked`.
pub mod Laws
pub mod Ends
use safe_client_libs.Shared.{ℕ, zero, suc, Bool, true, false, String, ◌<>◌, Option, none, some}
use safe_client_libs.External.Types.{Types}
use safe_client_libs.External.Protocol.{Bytes, Result, Blob}
use safe_client_libs.External.Blobs.{DataTypeEncoding}
use safe_client_libs.External.Api.{Api}
use safe_client_libs.Errors.{CoreError, from_text, from_serialisation}
use safe_client_libs.Exec.{Exec, Exit, ok, err, blocked, pure, raise, try, ◌>>=◌}
use safe_client_libs.Client.State.{World, public_key}
use safe_client_libs.Client.Blobs.Storage.{Storage, EncryptorApi, is_pub, make_blob, dry_run}

module _ {T : Types} (X : Api T) (E : EncryptorApi T) where
  abbrev pub from_encryption : T.EncryptionError → CoreError T
  from_encryption e = from_text ("Self encryption error: " <> X.blob.display_encryption e)

  -- A new encryptor that is written to once and closed.
  unfoldable pub encrypt_all : Storage T → Bytes → Exec T (World T) T.DataMap
  encrypt_all storage bytes = do
    self_encryptor ← try from_encryption (E.new_encryptor storage X.blob.no_map)
    written ← try from_encryption (← E.write storage self_encryptor bytes 0)
    try from_encryption (← E.close storage written)

  -- A new encryptor for this map, read from the start to the end.
  unfoldable pub read_all : Storage T → T.DataMap → Exec T (World T) Bytes
  read_all storage data_map = do
    self_encryptor ← try from_encryption (E.new_encryptor storage data_map)
    try from_encryption (← E.read storage self_encryptor 0 (E.len self_encryptor))

  -- A loop that takes more rounds than there is fuel.
  abbrev pub goes_on : {A : Type 0} → World T → Exit T A × World T
  goes_on w = (blocked, w)

  module _ (storage : Bool → Storage T) where
    unfoldable pub pack : ℕ → T.PublicKey → Bytes → Bool → Exec T (World T) (Blob T)
    unfolding encrypt_all
    pack zero owner value published = goes_on
    pack (suc rounds) owner value published = do
      let blob = make_blob X published value owner
      serialised_data ← try from_serialisation (X.blob.serialise_blob blob)
      elim (X.blob.validate_size blob) [
        | true ↦ pure blob
        | false ↦ do
          data_map ← encrypt_all (storage published) serialised_data
          value' ←
              try from_serialisation
                (X.blob.serialise_encoding (DataTypeEncoding.data_map data_map))
          pack rounds owner value' published
      ]

    unfoldable pub unpack : ℕ → Blob T → Exec T (World T) Bytes
    unfolding read_all
    unpack zero blob = goes_on
    unpack (suc rounds) blob = do
      encoding ← try from_serialisation (X.blob.deserialise_encoding (X.blob.value blob))
      elim encoding [
        | DataTypeEncoding.serialised value ↦ pure value
        | DataTypeEncoding.data_map data_map ↦ do
          serialised_data ← read_all (storage (is_pub blob)) data_map
          blob' ← try from_serialisation (X.blob.deserialise_blob serialised_data)
          unpack rounds blob'
      ]

    abbrev pub given_or : {A : Type 0} → A → Option A → A
    given_or a none = a
    given_or a (some b) = b

    -- The match on what was read.
    abbrev pub as_read : Result T.EncryptionError Bytes → World T → Exit T Bytes × World T
    as_read (Result.ok bytes) = pure bytes
    as_read (Result.err error) = raise (from_text (X.blob.display_encryption error))

    unfoldable pub extract_blob_data : ℕ → Blob T → Option ℕ → Option ℕ → Exec T (World T) Bytes
    unfolding unpack
    extract_blob_data rounds blob position len = do
      value ← unpack rounds blob
      data_map ← try from_serialisation (X.blob.deserialise_map value)
      self_encryptor ← try from_encryption (E.new_encryptor (storage (is_pub blob)) data_map)
      r ←
          E.read (storage (is_pub blob)) self_encryptor (given_or 0 position)
            (given_or (E.len self_encryptor) len)
      as_read r

    unfoldable pub self_encrypt_blob : ℕ → Blob T → Exec T (World T) (Blob T)
    unfolding pack encrypt_all dry_run public_key
    self_encrypt_blob rounds blob = do
      data_map ← encrypt_all (dry_run X (is_pub blob)) (X.blob.value blob)
      serialised_data_map ← try from_serialisation (X.blob.serialise_map data_map)
      value ←
          try from_serialisation
            (X.blob.serialise_encoding (DataTypeEncoding.serialised serialised_data_map))
      key ← public_key X
      pack rounds key value (is_pub blob)
