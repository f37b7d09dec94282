-- ===== src/Client/Blobs/Packing/Ends.antt =====
-- How long packing goes on.
use safe_client_libs.Shared.{
  ℕ, zero, suc, ◌<◌, ◌≡◌, ◌≢◌, refl, Bool, false, inl, inr, arith, length, Bool-cases,
}
use safe_client_libs.External.Types.{Types}
use safe_client_libs.External.Protocol.{Bytes, Result}
use safe_client_libs.External.Blobs.{DataTypeEncoding}
use safe_client_libs.External.Api.{Api}
use safe_client_libs.Exec.{ok, blocked, continue, continue-eq-blocked, try}
use safe_client_libs.Errors.{from_serialisation}
use safe_client_libs.Client.State.{World}
use safe_client_libs.Client.Blobs.Storage.{Storage, EncryptorApi, make_blob}
use safe_client_libs.Client.Blobs.Packing.{encrypt_all, pack}

module _ {T : Types} (X : Api T) (E : EncryptorApi T) (storage : Bool → Storage T) where
  -- An encryption comes to an end, and what does not fit into a blob gets shorter by it.
  pub record IsShrinking : Type 0 where
    pub ends :
        (published : Bool) (bytes : Bytes) (w : World T)
        → (encrypt_all X E (storage published) bytes w).0 ≢ blocked
    pub shrinks :
        (published : Bool) (key : T.PublicKey) (value bytes value' : Bytes) (m : T.DataMap)
        (w : World T)
        → X.blob.validate_size (make_blob X published value key) ≡ false
        → X.blob.serialise_blob (make_blob X published value key) ≡ Result.ok bytes
        → (encrypt_all X E (storage published) bytes w).0 ≡ ok m
        → X.blob.serialise_encoding (DataTypeEncoding.data_map m) ≡ Result.ok value'
        → length value' < length value

  after_encoding_blocked :
      (rounds : ℕ) (key : T.PublicKey) (published : Bool) (w : World T)
      (r : Result T.SerialisationError Bytes)
      → (continue
          (try {T = T} {A = Bytes} (from_serialisation {T = T}) r w).0
          (λ value'. pack X E storage rounds key value' published)
          (try {T = T} {A = Bytes} (from_serialisation {T = T}) r w).1).0
        ≡ blocked
      → (value' : Bytes) × (r ≡ Result.ok value')
        × ((pack X E storage rounds key value' published w).0 ≡ blocked)
  after_encoding_blocked rounds key published w (Result.ok value') h = (value', refl, h)
  after_encoding_blocked rounds key published w (Result.err e) h = cc h

  module _ (shrinking : IsShrinking) where
    -- Where every encryption comes to an end, and the encoded map of data of a blob that does not fit
    -- is shorter than the value of that blob: packing ends within more rounds than the value has
    -- bytes.
    pub pack-ne-blocked :
        (rounds : ℕ) (key : T.PublicKey) (value : Bytes) (published : Bool) (w : World T)
        → length value < rounds
        → (pack X E storage rounds key value published w).0 ≢ blocked
    unfolding pack
    pack-ne-blocked zero key value published w h stuck = absurd (omega arith)
    pack-ne-blocked (suc rounds) key value published w h stuck =
        go (λ value' w' less. pack-ne-blocked rounds key value' published w' less)
          (X.blob.serialise_blob (make_blob X published value key)) refl
      where
        go :
            ((value' : Bytes) (w' : World T)
              → length value' < rounds
              → (pack X E storage rounds key value' published w').0 ≢ blocked)
            → (r : Result T.SerialisationError Bytes)
            → X.blob.serialise_blob (make_blob X published value key) ≡ r
            → ⊥
        go later (Result.err x) e = cc (rw e at stuck)
        go later (Result.ok bytes) e =
            elim (Bool-cases (X.blob.validate_size (make_blob X published value key))) [
              | inl fits ↦ cc (rw (e, fits) at stuck)
              | inr large ↦
                  elim (continue-eq-blocked (encrypt_all X E (storage published) bytes w).0 _ _
                    (rw (e, large) at stuck)) [
                      | inl here ↦ shrinking.ends published bytes w here
                      | inr (m, encrypted, rest) ↦
                          let (value', coded, again) =
                            after_encoding_blocked rounds key published _ _ rest in
                          let less =
                            shrinking.shrinks published key value bytes value' m w large e encrypted
                              coded in
                          later value' _ (omega arith) again
                    ]
            ]
