-- ===== src/Client/Blobs/Calls.antt =====
-- `get_blob` and `store_blob` (src/client/blob_apis.rs), and the storage that calls them again for
-- the chunks (src/client/blob_storage.rs). The depth of these calls is bounded by fuel: what goes
-- deeper is `blocked`.
pub mod Laws
pub mod Stores
use safe_client_libs.Shared.{ℕ, zero, suc, Bool, Option, none, some}
use safe_client_libs.External.Types.{Types}
use safe_client_libs.External.Protocol.{
  Bytes, Result, Blob, BlobAddress, BlobRead, BlobWrite, DataQuery, Query, QueryResponse,
}
use safe_client_libs.External.Api.{Api}
use safe_client_libs.Errors.{CoreError, from_snd}
use safe_client_libs.Exec.{Exec, Exit, ok, err, blocked, pure, raise, try, attempt, ◌>>=◌, ◌>>◌}
use safe_client_libs.Client.State.{
  World, set_blob_cache, on_link, create_cmd_message, send_cmd, send_query, public_key,
}
use safe_client_libs.Client.Money.Payments.{
  Validation, create_write_payment_proof, apply_write_payment_to_local_actor,
}
use safe_client_libs.Client.Blobs.{wrap_blob_write}
use safe_client_libs.Client.Blobs.Storage.{
  Storage, EncryptorApi, is_pub, make_blob, storage_get, storage_put, generate_address,
}
use safe_client_libs.Client.Blobs.Packing.{extract_blob_data, self_encrypt_blob}

module _ {T : Types} (X : Api T) (E : EncryptorApi T) where
  -- `self.blob_cache.lock().await.get_mut(&address)`
  abbrev pub look_up_blob : BlobAddress → World T → Exit T (Option (Blob T)) × World T
  look_up_blob address w =
      let (found, cache) = X.blob.cache_get w.client.blob_cache address in
      (ok found, set_blob_cache cache w)

  -- `self.blob_cache.lock().await.put(*data.address(), data.clone())`
  abbrev pub remember_blob : Blob T → World T → Exit T (Unit {0}) × World T
  remember_blob blob w =
      (ok tt, set_blob_cache (X.blob.cache_put w.client.blob_cache (X.blob.address blob) blob) w)

  abbrev pub expect_blob : QueryResponse T → World T → Exit T (Blob T) × World T
  expect_blob (QueryResponse.get_blob res) = try from_snd res
  expect_blob _ = raise CoreError.received_unexpected_event

  module _ (storage : Bool → Storage T) (rounds : ℕ) where
    -- A miss of the cache.
    unfoldable pub fetch_blob : BlobAddress → Option ℕ → Option ℕ → Exec T (World T) (Blob T)
    unfolding public_key
    fetch_blob address position len = do
      res ← send_query X (Query.data_query (DataQuery.blob (BlobRead.get address)))
      blob ← expect_blob res
      remember_blob blob
      raw_data ← extract_blob_data X E storage rounds blob position len
      key ← public_key X
      pure (make_blob X (is_pub blob) raw_data key)

    abbrev pub found_or_fetch :
        BlobAddress → Option ℕ → Option ℕ → Option (Blob T) → World T → Exit T (Blob T) × World T
    found_or_fetch address position len (some blob) = pure blob
    found_or_fetch address position len none = fetch_blob address position len

    unfoldable pub get_blob_over : BlobAddress → Option ℕ → Option ℕ → Exec T (World T) (Blob T)
    unfolding fetch_blob
    get_blob_over address position len = do
      found ← look_up_blob address
      found_or_fetch address position len found

    -- The result of the registration is dropped.
    unfoldable pub store_blob_over : Validation T → Blob T → Exec T (World T) (Blob T)
    unfolding wrap_blob_write
    store_blob_over await blob = do
      data_to_write ← self_encrypt_blob X E storage rounds blob
      payment_proof ← create_write_payment_proof X await
      let msg_contents = wrap_blob_write (BlobWrite.new data_to_write) payment_proof
      message ← on_link (create_cmd_message X msg_contents)
      send_cmd X message
      attempt (apply_write_payment_to_local_actor X payment_proof)
      pure data_to_write

  -- A storage that is not to be reached.
  abbrev pub too_deep : Bool → Storage T
  too_deep published = record {
    get = λ name w. (blocked, w);
    put = λ name bytes w. (blocked, w);
    generate_address = generate_address X published;
  }

  -- `BlobStorage`
  unfoldable pub blob_storage : Validation T → ℕ → ℕ → Bool → Storage T
  unfolding get_blob_over store_blob_over storage_get storage_put
  blob_storage await rounds zero published = too_deep published
  blob_storage await rounds (suc depth) published = record {
    get =
        storage_get X
          (λ address. get_blob_over (blob_storage await rounds depth) rounds address none none)
          published;
    put = storage_put X (store_blob_over (blob_storage await rounds depth) rounds await) published;
    generate_address = generate_address X published;
  }

  unfoldable pub get_blob :
      Validation T → ℕ → ℕ → BlobAddress → Option ℕ → Option ℕ → Exec T (World T) (Blob T)
  unfolding blob_storage
  get_blob await rounds depth = get_blob_over (blob_storage await rounds depth) rounds

  unfoldable pub store_blob : Validation T → ℕ → ℕ → Blob T → Exec T (World T) (Blob T)
  unfolding blob_storage
  store_blob await rounds depth = store_blob_over (blob_storage await rounds depth) rounds await
