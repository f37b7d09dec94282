-- ===== src/Client/Blobs/Storage.antt =====
-- What the self encryptor stores its chunks in (src/client/blob_storage.rs), and the self encryptor
-- itself, which is of another crate and calls its storage.
use safe_client_libs.Shared.{ℕ, Bool, true, false, String, if◌then◌else◌, length, nat_beq}
use safe_client_libs.External.Types.{Types}
use safe_client_libs.External.Protocol.{Bytes, XorName, Result, Blob, BlobAddress}
use safe_client_libs.External.Api.{Api}
use safe_client_libs.Errors.{CoreError, ErrorText, display}
use safe_client_libs.Exec.{Exec, pure, attempt, ◌>>=◌}
use safe_client_libs.Client.State.{World, public_key}

-- `BlobStorageError`
pub record StorageError (T : Types) : Type 0 where
  pub error : CoreError T

abbrev pub from_core : {T : Types} → CoreError T → StorageError T
from_core error = record { error = error }

-- `Display for BlobStorageError`
unfoldable pub display_storage : {T : Types} → ErrorText T → StorageError T → String
unfolding display
display_storage X e = display X e.error

-- The trait `Storage` of self_encryption. A call may change the client that the storage holds.
pub record Storage (T : Types) : Type 0 where
  pub get : Bytes → Exec T (World T) (Result (StorageError T) Bytes)
  pub put : Bytes → Bytes → Exec T (World T) (Result (StorageError T) (Unit {0}))
  pub generate_address : Bytes → Exec T (World T) Bytes

-- `SelfEncryptor`
pub record EncryptorApi (T : Types) : Type 0 where
  pub new_encryptor : Storage T → T.DataMap → Result T.EncryptionError T.Encryptor
  pub len : T.Encryptor → ℕ
  pub read : Storage T → T.Encryptor → ℕ → ℕ → Exec T (World T) (Result T.EncryptionError Bytes)
  pub write :
      Storage T → T.Encryptor → Bytes → ℕ → Exec T (World T) (Result T.EncryptionError T.Encryptor)
  pub close : Storage T → T.Encryptor → Exec T (World T) (Result T.EncryptionError T.DataMap)

abbrev pub address_for : Bool → XorName → BlobAddress
address_for true name = BlobAddress.public name
address_for false name = BlobAddress.private name

abbrev pub is_pub : {T : Types} → Blob T → Bool
is_pub (Blob.public _) = true
is_pub (Blob.private _) = false

abbrev pub name_of_blob : BlobAddress → XorName
name_of_blob (BlobAddress.public name) = name
name_of_blob (BlobAddress.private name) = name

module _ {T : Types} (X : Api T) where
  -- A blob of this value: public, or private and of this owner.
  abbrev pub make_blob : Bool → Bytes → T.PublicKey → Blob T
  make_blob true value key = Blob.public (X.blob.new_public value)
  make_blob false value key = Blob.private (X.blob.new_private value key)

  unfoldable pub generate_address : Bool → Bytes → Exec T (World T) Bytes
  unfolding public_key
  generate_address published bytes = do
    key ← public_key X
    pure (name_of_blob (X.blob.address (make_blob published bytes key)))

  -- The result of a call of the client, as the storage gives it on.
  abbrev pub given_on :
      {A B : Type 0} → (A → B) → Result (CoreError T) A → Result (StorageError T) B
  given_on f (Result.ok a) = Result.ok (f a)
  given_on f (Result.err error) = Result.err (from_core error)

  -- `BlobStorage::get`, over the client's `get_blob` at an address.
  unfoldable pub storage_get :
      (BlobAddress → Exec T (World T) (Blob T))
      → Bool
      → Bytes
      → Exec T (World T) (Result (StorageError T) Bytes)
  storage_get get_blob published name =
      if nat_beq (length name) X.blob.xor_name_len
      then (do r ← attempt (get_blob (address_for published name)); pure (given_on X.blob.value r))
      else pure
          (Result.err (from_core (CoreError.unexpected "Requested `name` is incorrect size.")))

  -- `BlobStorage::put`, over the client's `store_blob`. The name is not used.
  unfoldable pub storage_put :
      (Blob T → Exec T (World T) (Blob T))
      → Bool
      → Bytes
      → Bytes
      → Exec T (World T) (Result (StorageError T) (Unit {0}))
  unfolding public_key
  storage_put store_blob published name bytes = do
    key ← public_key X
    r ← attempt (store_blob (make_blob published bytes key))
    pure (given_on (λ _. tt) r)

  -- `BlobStorageDryRun`
  abbrev pub dry_get : Bytes → Exec T (World T) (Result (StorageError T) Bytes)
  dry_get name = pure (
      Result.err (from_core (CoreError.unexpected "Cannot get from storage since it's a dry run.")))

  abbrev pub dry_put : Bytes → Bytes → Exec T (World T) (Result (StorageError T) (Unit {0}))
  dry_put name bytes = pure (Result.ok tt)

  unfoldable pub dry_run : Bool → Storage T
  dry_run published = record {
    get = dry_get;
    put = dry_put;
    generate_address = generate_address published;
  }
