-- ===== src/Client/Blobs/Calls/Laws.antt =====
-- What `get_blob` returns at first and later.
use mathlib.Core.Path.{subst}
use safe_client_libs.Shared.{ℕ, ◌≡◌, refl, ap, ◌∙◌, Bool, Option, none, some, arith}
use safe_client_libs.External.Types.{Types}
use safe_client_libs.External.Protocol.{
  Bytes, Result, Blob, BlobAddress, BlobRead, DataQuery, Query, QueryResponse,
}
use safe_client_libs.External.Api.{Api}
use safe_client_libs.Exec.{Exit, ok}
use safe_client_libs.Client.State.{World, set_blob_cache, send_query, public_key}
use safe_client_libs.Client.Blobs.Storage.{Storage, EncryptorApi, is_pub, make_blob}
use safe_client_libs.Client.Blobs.Packing.{extract_blob_data}
use safe_client_libs.Client.Blobs.Calls.{fetch_blob, get_blob_over}

-- What the documentation of `lru` says of a cache with room for an entry.
pub record IsLawfulBlobCache {T : Types} (X : Api T) : Type 0 where
  pub get-put :
      (c : T.BlobCache) (a : BlobAddress) (blob : Blob T)
      → (X.blob.cache_get (X.blob.cache_put c a blob) a).0 ≡ some blob

module _ {T : Types} (X : Api T) (E : EncryptorApi T) (storage : Bool → Storage T)
    (rounds : ℕ) where
  abbrev pub cached_blob : World T → BlobAddress → Option (Blob T)
  cached_blob w address = (X.blob.cache_get w.client.blob_cache address).0

  -- The client as a look-up leaves it, and as it is with this blob in its cache.
  abbrev pub looked_up : BlobAddress → World T → World T
  looked_up address w = set_blob_cache (X.blob.cache_get w.client.blob_cache address).1 w

  abbrev pub with_blob : Blob T → World T → World T
  with_blob blob w =
      set_blob_cache (X.blob.cache_put w.client.blob_cache (X.blob.address blob) blob) w

  get_blob-hit :
      (address : BlobAddress) (position len : Option ℕ) (blob : Blob T) (w : World T)
      → cached_blob w address ≡ some blob
      → get_blob_over X E storage rounds address position len w ≡ (ok blob, looked_up address w)
  unfolding get_blob_over
  get_blob-hit address position len blob w h = rw (h, get_blob_over) refl

  get_blob-miss :
      (address : BlobAddress) (position len : Option ℕ) (w : World T)
      → cached_blob w address ≡ none
      → get_blob_over X E storage rounds address position len w
        ≡ fetch_blob X E storage rounds address position len (looked_up address w)
  unfolding get_blob_over
  get_blob-miss address position len w h = rw (h, get_blob_over) refl

  fetch_blob-run :
      (address : BlobAddress) (position len : Option ℕ) (blob : Blob T) (raw : Bytes)
      (w w₁ w₂ : World T)
      → send_query X (Query.data_query (DataQuery.blob (BlobRead.get address))) w
        ≡ (ok (QueryResponse.get_blob (Result.ok blob)), w₁)
      → extract_blob_data X E storage rounds blob position len (with_blob blob w₁) ≡ (ok raw, w₂)
      → fetch_blob X E storage rounds address position len w
        ≡ (ok (make_blob X (is_pub blob) raw (X.net.public_key w₂.client.full_id)), w₂)
  unfolding fetch_blob public_key
  fetch_blob-run address position len blob raw w w₁ w₂ sent extracted =
      ground (arith, sent, extracted)

  module _ (lawful : IsLawfulBlobCache X) where
    -- A first call of `get_blob` for a blob that is not in the cache, and that the network has, returns
    -- a blob of the content that is read from it at the given range. It leaves in the cache the blob
    -- of the network. So a second call for the same address returns that blob, packed as it is, for
    -- whatever range it asks. This is so where the cache has room, and where reading from the network
    -- leaves the cache as it is.
    pub get_blob_again :
        (address : BlobAddress) (position len position' len' : Option ℕ) (blob : Blob T)
        (raw : Bytes) (w w₁ w₂ : World T)
        → cached_blob w address ≡ none
        → send_query X
            (Query.data_query (DataQuery.blob (BlobRead.get address)))
            (looked_up address w)
          ≡ (ok (QueryResponse.get_blob (Result.ok blob)), w₁)
        → X.blob.address blob ≡ address
        → extract_blob_data X E storage rounds blob position len (with_blob blob w₁) ≡ (ok raw, w₂)
        → w₂.client.blob_cache ≡ (with_blob blob w₁).client.blob_cache
        → let (first, last) = get_blob_over X E storage rounds address position len w in
          (first ≡ ok (make_blob X (is_pub blob) raw (X.net.public_key w₂.client.full_id)))
          × ((get_blob_over X E storage rounds address position' len' last).0 ≡ ok blob)
    get_blob_again address position len position' len' blob raw w w₁ w₂ miss sent same extracted
          kept =
        let went =
          get_blob-miss address position len w miss
          ∙ fetch_blob-run address position len blob raw (looked_up address w) w₁ w₂ sent
              extracted in
        let hit : cached_blob w₂ address ≡ some blob =
          ap (λ (c : T.BlobCache). (X.blob.cache_get c address).0) kept
          ∙ subst
              (λ a.
                (X.blob.cache_get (X.blob.cache_put w₁.client.blob_cache (X.blob.address blob) blob)
                  a).0
                ≡ some blob)
              same (lawful.get-put w₁.client.blob_cache (X.blob.address blob) blob) in
        rw went (
          refl,
          ap (λ (r : Exit T (Blob T) × World T). r.0)
              (get_blob-hit address position' len' blob w₂ hit),
        )
