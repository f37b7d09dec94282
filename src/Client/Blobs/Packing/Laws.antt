-- ===== src/Client/Blobs/Packing/Laws.antt =====
-- What is packed is unpacked again.
use mathlib.Core.Path.{subst}
use safe_client_libs.Shared.{
  ◌⊎◌, ℕ, zero, suc, ◌+◌, ◌≤◌, ◌≡◌, refl, sym, ap, ◌∙◌, Bool, true, false, inl, inr, arith,
  Bool-cases,
}
use safe_client_libs.External.Types.{Types}
use safe_client_libs.External.Protocol.{Bytes, Result, Blob}
use safe_client_libs.External.Blobs.{DataTypeEncoding}
use safe_client_libs.External.Api.{Api}
use safe_client_libs.Exec.{Exit, ok, continue, continue-eq-ok, ok-injective, try}
use safe_client_libs.Errors.{from_serialisation}
use safe_client_libs.Client.State.{World}
use safe_client_libs.Client.Blobs.Storage.{Storage, EncryptorApi, is_pub, make_blob}
use safe_client_libs.Client.Blobs.Packing.{encrypt_all, read_all, pack, unpack}

-- What bincode and `safe_nd` document: an encoding is decoded, and a blob keeps its value.
pub record IsCoding {T : Types} (X : Api T) : Type 0 where
  pub blob_back :
      (blob : Blob T) (bytes : Bytes)
      → X.blob.serialise_blob blob ≡ Result.ok bytes
      → X.blob.deserialise_blob bytes ≡ Result.ok blob
  pub encoding_back :
      (e : DataTypeEncoding T) (bytes : Bytes)
      → X.blob.serialise_encoding e ≡ Result.ok bytes
      → X.blob.deserialise_encoding bytes ≡ Result.ok e
  pub value_back :
      (published : Bool) (value : Bytes) (key : T.PublicKey)
      → X.blob.value (make_blob X published value key) ≡ value

is_pub-make_blob :
    {T : Types} (X : Api T) (published : Bool) (value : Bytes) (key : T.PublicKey)
    → is_pub (make_blob X published value key) ≡ published
is_pub-make_blob X true value key = refl
is_pub-make_blob X false value key = refl

module _ {T : Types} (X : Api T) (E : EncryptorApi T) (storage : Bool → Storage T) where
  -- `Holds w published m bytes`: in `w`, the storage has all chunks of the map `m` of these bytes.
  -- Encrypting leaves the chunks of its map there, a map whose chunks are there is read, and neither
  -- of them loses the chunks of another map.
  pub record IsStore (Holds : World T → Bool → T.DataMap → Bytes → Type 0) : Type 0 where
    pub encrypt-Holds :
        (published : Bool) (bytes : Bytes) (w : World T) (m : T.DataMap)
        → (encrypt_all X E (storage published) bytes w).0 ≡ ok m
        → Holds (encrypt_all X E (storage published) bytes w).1 published m bytes
    pub encrypt_keeps :
        (published : Bool) (bytes : Bytes) (w : World T) (kind : Bool) (m : T.DataMap) (b : Bytes)
        → Holds w kind m b
        → Holds (encrypt_all X E (storage published) bytes w).1 kind m b
    pub read-ok :
        (published : Bool) (bytes : Bytes) (w : World T) (m : T.DataMap)
        → Holds w published m bytes
        → (read_all X E (storage published) m w).0 ≡ ok bytes
    pub read_keeps :
        (published : Bool) (map : T.DataMap) (w : World T) (kind : Bool) (m : T.DataMap) (b : Bytes)
        → Holds w kind m b
        → Holds (read_all X E (storage published) map w).1 kind m b

  module _ (Holds : World T → Bool → T.DataMap → Bytes → Type 0) where
    -- The storage has lost nothing from the one world to the other.
    abbrev pub LosesNothing : World T → World T → Type 0
    LosesNothing w w' =
        (kind : Bool) (m : T.DataMap) (b : Bytes) → Holds w kind m b → Holds w' kind m b

    -- Unpacking takes this number of rounds, in every world in which the storage has what it has in
    -- `w`, and gives this value.
    abbrev Unpacks : ℕ → World T → Blob T → Bytes → Type 0
    Unpacks k w blob v =
        (w' : World T) → LosesNothing w w' → (unpack X E storage k blob w').0 ≡ ok v

  module _ (Holds : World T → Bool → T.DataMap → Bytes → Type 0) (coding : IsCoding X) where
    unpack_serialised :
        (published : Bool) (key : T.PublicKey) (v value : Bytes) (w : World T)
        → X.blob.serialise_encoding (DataTypeEncoding.serialised v) ≡ Result.ok value
        → Unpacks Holds 1 w (make_blob X published value key) v
    unfolding unpack
    unpack_serialised published key v value w h w' lost =
        let decoded : X.blob.deserialise_encoding (X.blob.value (make_blob X published value key))
            ≡ Result.ok (DataTypeEncoding.serialised v) =
          rw (coding.value_back published value key) (coding.encoding_back _ value h) in
        ground (arith, decoded)

    module _ (store : IsStore Holds) where
      unpack_map :
          (published : Bool) (key : T.PublicKey) (value bytes value' v : Bytes) (m : T.DataMap)
          (k : ℕ) (w : World T)
          → X.blob.serialise_blob (make_blob X published value key) ≡ Result.ok bytes
          → (encrypt_all X E (storage published) bytes w).0 ≡ ok m
          → X.blob.serialise_encoding (DataTypeEncoding.data_map m) ≡ Result.ok value'
          → Unpacks Holds k w (make_blob X published value key) v
          → Unpacks Holds
              (suc k)
              (encrypt_all X E (storage published) bytes w).1
              (make_blob X published value' key)
              v
      unfolding unpack
      unpack_map published key value bytes value' v m k w written encrypted coded before w' lost =
          let kind = is_pub (make_blob X published value' key) in
          let decoded : X.blob.deserialise_encoding
                (X.blob.value (make_blob X published value' key))
              ≡ Result.ok (DataTypeEncoding.data_map m) =
            rw (coding.value_back published value' key) (coding.encoding_back _ value' coded) in
          let there = lost published m bytes (store.encrypt-Holds published bytes w m encrypted) in
          let read : (read_all X E (storage kind) m w').0 ≡ ok bytes =
            rw (is_pub-make_blob X published value' key)
              (store.read-ok published bytes w' m there) in
          let again = coding.blob_back _ bytes written in
          let next = before (read_all X E (storage kind) m w').1 (λ c map b holds.
            store.read_keeps kind m w' c map b
              (lost c map b (store.encrypt_keeps published bytes w c map b holds))) in
          ground (arith, decoded, read, again, next)

  -- How a round of packing goes on that returns.
  abbrev GoesOn :
      ℕ → T.PublicKey → Bytes → Bool → Bytes → World T → Blob T → Exit T (Blob T) × World T → Type 0
  GoesOn rounds key value published bytes w blob result =
      ((make_blob X published value key ≡ blob) × (result ≡ (ok blob, w)))
      ⊎ (let (end, w') = encrypt_all X E (storage published) bytes w in
          (m : T.DataMap) × (value' : Bytes) × (end ≡ ok m)
          × (X.blob.serialise_encoding (DataTypeEncoding.data_map m) ≡ Result.ok value')
          × (result ≡ pack X E storage rounds key value' published w'))

  abbrev encoded :
      ℕ
      → T.PublicKey
      → Bool
      → Result T.SerialisationError Bytes
      → World T
      → Exit T (Blob T) × World T
  encoded rounds key published r w =
      continue (try {T = T} {A = Bytes} (from_serialisation {T = T}) r w).0
        (λ value'. pack X E storage rounds key value' published)
        (try {T = T} {A = Bytes} (from_serialisation {T = T}) r w).1

  after_encoding :
      (rounds : ℕ) (key : T.PublicKey) (published : Bool) (blob : Blob T) (w : World T)
      (r : Result T.SerialisationError Bytes)
      → (encoded rounds key published r w).0 ≡ ok blob
      → (value' : Bytes) × (r ≡ Result.ok value')
        × (encoded rounds key published r w ≡ pack X E storage rounds key value' published w)
  after_encoding rounds key published blob w (Result.ok value') h = (value', refl, refl)
  after_encoding rounds key published blob w (Result.err e) h = cc h

  -- One round of packing that returns.
  pack-eq-ok :
      (rounds : ℕ) (key : T.PublicKey) (value : Bytes) (published : Bool) (w : World T)
      (blob : Blob T)
      → (pack X E storage (suc rounds) key value published w).0 ≡ ok blob
      → (bytes : Bytes) × (X.blob.serialise_blob (make_blob X published value key)
          ≡ Result.ok bytes)
        × GoesOn rounds key value published bytes w blob
            (pack X E storage (suc rounds) key value published w)
  unfolding pack
  pack-eq-ok rounds key value published w blob h =
      go (X.blob.serialise_blob (make_blob X published value key)) refl
    where
      go :
          (r : Result T.SerialisationError Bytes)
          → X.blob.serialise_blob (make_blob X published value key) ≡ r
          → (bytes : Bytes) × (X.blob.serialise_blob (make_blob X published value key)
              ≡ Result.ok bytes)
            × GoesOn rounds key value published bytes w blob
                (pack X E storage (suc rounds) key value published w)
      go (Result.err x) e = cc (rw e at h)
      go (Result.ok bytes) e =
          elim (Bool-cases (X.blob.validate_size (make_blob X published value key))) [
            | inl fits ↦
                let same = ok-injective T _ _ (rw (e, fits) at h) in
                (bytes, e, inl (same, rw (e, fits) (rw same refl)))
            | inr large ↦
                let encrypting = encrypt_all X E (storage published) bytes in
                let (m, encrypted, rest) =
                  continue-eq-ok (encrypting w).0 _ _ (rw (e, large) at h) in
                let (value', coded, again) =
                  after_encoding rounds key published blob (encrypting w).1
                    (X.blob.serialise_encoding (DataTypeEncoding.data_map m)) rest in
                (bytes, e, inr (m, value', encrypted, coded, rw (e, large) (rw encrypted again)))
          ]

  module _ (Holds : World T → Bool → T.DataMap → Bytes → Type 0) (coding : IsCoding X)
      (store : IsStore Holds) where
    pack-Unpacks :
        (rounds k : ℕ) (key : T.PublicKey) (value v : Bytes) (published : Bool) (w : World T)
        (blob : Blob T)
        → (pack X E storage rounds key value published w).0 ≡ ok blob
        → Unpacks Holds k w (make_blob X published value key) v
        → (n : ℕ) × (n ≤ k + rounds)
          × Unpacks Holds n (pack X E storage rounds key value published w).1 blob v
    unfolding pack
    pack-Unpacks zero k key value v published w blob h before = cc h
    pack-Unpacks (suc rounds) k key value v published w blob h before =
        let (bytes, written, goes_on) = pack-eq-ok rounds key value published w blob h in
        elim goes_on [
          | inl (now, ended) ↦ (
            k,
            omega arith,
            subst (λ w'. Unpacks Holds k w' blob v)
                (sym (ap (λ (r : Exit T (Blob T) × World T). r.1) ended))
                (subst (λ b. Unpacks Holds k w b v) now before),
          )
          | inr (m, value', encrypted, coded, again) ↦
              let w' = (encrypt_all X E (storage published) bytes w).1 in
              let (n, bound, unpacks) =
                pack-Unpacks rounds (suc k) key value' v published w' blob
                  (sym (ap (λ (r : Exit T (Blob T) × World T). r.0) again) ∙ h)
                  (unpack_map Holds coding store published key value bytes value' v m k w written
                    encrypted coded before) in
              (
                n,
                omega arith,
                subst (λ w'. Unpacks Holds n w' blob v)
                    (sym (ap (λ (r : Exit T (Blob T) × World T). r.1) again)) unpacks,
              )
        ]

    pub unpack-pack :
        (rounds : ℕ) (key : T.PublicKey) (v value : Bytes) (published : Bool) (w w' : World T)
        (blob : Blob T)
        → X.blob.serialise_encoding (DataTypeEncoding.serialised v) ≡ Result.ok value
        → (pack X E storage rounds key value published w).0 ≡ ok blob
        → LosesNothing Holds (pack X E storage rounds key value published w).1 w'
        → (n : ℕ) × (n ≤ 1 + rounds) × ((unpack X E storage n blob w').0 ≡ ok v)
    unpack-pack rounds key v value published w w' blob coded h lost =
        let (n, bound, unpacks) =
          pack-Unpacks rounds 1 key value v published w blob h
            (unpack_serialised Holds coding published key v value w coded) in
        (n, bound, unpacks w' lost)
