-- ===== src/External/Blobs.antt =====
-- The functions of other crates that the calls on blobs use: the blobs of `safe_nd`, the cache of
-- `lru`, bincode, and the texts of the errors of `self_encryption`.
use safe_client_libs.Shared.{ℕ, Bool, String, Option}
use safe_client_libs.External.Types.{Types}
use safe_client_libs.External.Protocol.{Bytes, Result, Blob, BlobAddress}

-- `DataTypeEncoding` (src/client/blob_apis.rs): what the value of a stored blob is written as.
pub data DataTypeEncoding (T : Types) : Type 0 where
  serialised : Bytes → DataTypeEncoding T
  data_map : T.DataMap → DataTypeEncoding T

pub record BlobApi (T : Types) : Type 0 where
  pub new_public : Bytes → T.PublicBlob
  pub new_private : Bytes → T.PublicKey → T.PrivateBlob
  pub value : Blob T → Bytes
  pub address : Blob T → BlobAddress
  pub validate_size : Blob T → Bool
  pub serialise_blob : Blob T → Result T.SerialisationError Bytes
  pub deserialise_blob : Bytes → Result T.SerialisationError (Blob T)
  -- `XOR_NAME_LEN`
  pub xor_name_len : ℕ
  -- `DataMap::None`
  pub no_map : T.DataMap
  pub serialise_map : T.DataMap → Result T.SerialisationError Bytes
  pub deserialise_map : Bytes → Result T.SerialisationError T.DataMap
  pub serialise_encoding : DataTypeEncoding T → Result T.SerialisationError Bytes
  pub deserialise_encoding : Bytes → Result T.SerialisationError (DataTypeEncoding T)
  pub display_encryption : T.EncryptionError → String
  pub empty_cache : ℕ → T.BlobCache
  pub cache_get : T.BlobCache → BlobAddress → Option (Blob T) × T.BlobCache
  pub cache_put : T.BlobCache → BlobAddress → Blob T → T.BlobCache
