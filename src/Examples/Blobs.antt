-- ===== src/Examples/Blobs.antt =====
-- Runs of the calls on blobs, with an encryptor that holds the content as it is.
use mathlib.Core.Path.{subst}
use safe_client_libs.Shared.{
  ◌<◌, sym, ◌∙◌, ℕ, zero, suc, ◌≡◌, ◌≢◌, ◌≤◌, ◌+◌, refl, ap, Bool, true, false, Option, none, some,
  [], ◌∷◌, length, arith,
}
use safe_client_libs.External.Protocol.{
  Bytes, XorName, Result, Blob, BlobAddress, BlobWrite, DataCmd, Cmd, Message, Query, DataQuery,
  BlobRead,
}
use safe_client_libs.External.Blobs.{DataTypeEncoding}
use safe_client_libs.Exec.{ok, blocked, pure, ok-injective, ◌>>=◌}
use safe_client_libs.Errors.{CoreError}
use safe_client_libs.Client.Money.Payments.{
  Validation, create_write_payment_proof, apply_write_payment_to_local_actor,
}
use native.Mathlib.Decide.{ℕ_discrete}
use safe_client_libs.Connection.Link.{send_each}
use safe_client_libs.Connection.Election.{elect, add_vote, votes, survey, verdict}
use safe_client_libs.Connection.Query as Query
use safe_client_libs.Connection.Query.Laws.{IsSent}
use safe_client_libs.Client.State.{
  World, set_blob_cache, send_query, public_key, create_query_message, create_cmd_message,
}
use safe_client_libs.Client.Money.Balance.{get_history}
use safe_client_libs.Client.Blobs.Storage.{
  Storage, StorageError, from_core, EncryptorApi, make_blob,
}
use safe_client_libs.Client.Blobs.Packing.{
  pack, unpack, encrypt_all, read_all, extract_blob_data, self_encrypt_blob,
}
use safe_client_libs.Client.Blobs.Packing.Ends.{IsShrinking, pack-ne-blocked}
use safe_client_libs.Client.Blobs.Packing.Laws.{IsCoding, IsStore, unpack-pack}
use safe_client_libs.Client.Blobs.Calls.{blob_storage, fetch_blob, get_blob_over, store_blob_over}
use safe_client_libs.Client.Blobs.Calls.Laws.{IsLawfulBlobCache, get_blob_again}
use safe_client_libs.Client.Blobs.Calls.Stores.{store_blob_single_write}
use safe_client_libs.Examples.Toy.{
  toy, toy_api, toy_net, world, squeeze, unsqueeze, count_up, same_address, same_response,
  response_eq, is_yes, is_yes_iff, read_encoding, read_blob, blob_of, kept_as, zeros,
}

public-injective :
    (a b : Bytes) → ◌≡◌ {A = BlobAddress} (BlobAddress.public a) (BlobAddress.public b) → a ≡ b
public-injective a b h = cc h

Result-injective : {A : Type 0} (a b : A) → ◌≡◌ {A = Result ℕ A} (Result.ok a) (Result.ok b) → a ≡ b
Result-injective a b h = cc h

-- The map of data of an encryptor is the content, or what `close` makes of it.
abbrev encryptor_with : (Bytes → Bytes) → EncryptorApi toy
encryptor_with close = record {
  new_encryptor = λ storage m. Result.ok m;
  len = length;
  read = λ storage e position len. pure (Result.ok e);
  write = λ storage e bytes position. pure (Result.ok bytes);
  close = λ storage e. pure (Result.ok (close e));
}

abbrev keeping : EncryptorApi toy
keeping = encryptor_with (λ bytes. bytes)

abbrev shortening : EncryptorApi toy
shortening = encryptor_with (λ bytes. [])

unsqueeze-count_up : (bytes : Bytes) → bytes ≢ [] → unsqueeze (count_up bytes) ≡ 0 ∷ unsqueeze bytes
unsqueeze-count_up [] h = absurd (h refl)
unsqueeze-count_up (n ∷ rest) h = refl

count_up-ne-nil : (bytes : Bytes) → bytes ≢ [] → count_up bytes ≢ []
count_up-ne-nil [] h = h
count_up-ne-nil (n ∷ rest) h = λ e. cc e

squeeze-ne-nil : (bytes : Bytes) → squeeze bytes ≢ []
squeeze-ne-nil [] = λ e. cc e
squeeze-ne-nil (zero ∷ rest) = count_up-ne-nil (squeeze rest) (squeeze-ne-nil rest)
squeeze-ne-nil (suc n ∷ rest) = λ e. cc e

unsqueeze-squeeze : (bytes : Bytes) → unsqueeze (squeeze bytes) ≡ bytes
unsqueeze-squeeze [] = refl
unsqueeze-squeeze (zero ∷ rest) =
    rw (unsqueeze-count_up (squeeze rest) (squeeze-ne-nil rest), unsqueeze-squeeze rest) refl
unsqueeze-squeeze (suc n ∷ rest) = refl

written_blob-back :
    (blob : Blob toy) (bytes : Bytes)
    → toy_api.blob.serialise_blob blob ≡ Result.ok bytes
    → toy_api.blob.deserialise_blob bytes ≡ Result.ok blob
written_blob-back (Blob.public value) bytes h =
    subst (λ b. read_blob b ≡ Result.ok (Blob.public value)) (Result-injective _ _ h) refl
written_blob-back (Blob.private (value, owner)) bytes h =
    subst (λ b. read_blob b ≡ Result.ok (Blob.private (value, owner))) (Result-injective _ _ h) refl

written_encoding-back :
    (e : DataTypeEncoding toy) (bytes : Bytes)
    → toy_api.blob.serialise_encoding e ≡ Result.ok bytes
    → toy_api.blob.deserialise_encoding bytes ≡ Result.ok e
written_encoding-back (DataTypeEncoding.serialised value) bytes h =
    subst (λ b. read_encoding b ≡ Result.ok (DataTypeEncoding.serialised value))
      (Result-injective _ _ h) refl
written_encoding-back (DataTypeEncoding.data_map m) bytes h =
    subst (λ b. read_encoding b ≡ Result.ok (DataTypeEncoding.data_map m)) (Result-injective _ _ h)
      (rw (unsqueeze-squeeze m) refl)

make_blob-value :
    (published : Bool) (value : Bytes) (key : ℕ)
    → toy_api.blob.value (make_blob toy_api published value key) ≡ value
make_blob-value true value key = refl
make_blob-value false value key = refl

toy-IsCoding : IsCoding toy_api
toy-IsCoding = record {
  blob_back = written_blob-back;
  encoding_back = written_encoding-back;
  value_back = make_blob-value;
}

-- Elders that validate every transfer.
abbrev validated : Validation toy
validated message id = pure 77

abbrev chunks : EncryptorApi toy → Bool → Storage toy
chunks E = blob_storage toy_api E validated 5 2

-- A storage that keeps its chunks in the world, each under its own bytes, and an encryptor that puts
-- the content there as one chunk: its map of data is the name of that chunk.
abbrev found_chunk : Option (Blob toy) → Result (StorageError toy) Bytes
found_chunk none = Result.err (from_core (CoreError.unexpected "no such chunk"))
found_chunk (some blob) = Result.ok (toy_api.blob.value blob)

abbrev chunk : World toy → Bytes → Option (Blob toy)
chunk w name = blob_of (w.client.blob_cache (BlobAddress.public name))

abbrev kept_chunk : Bytes → Bytes → World toy → World toy
kept_chunk name bytes w =
    set_blob_cache
      (toy_api.blob.cache_put w.client.blob_cache (BlobAddress.public name) (Blob.public bytes)) w

abbrev chunk_storage : Bool → Storage toy
chunk_storage published = record {
  get = λ name w. pure (found_chunk (chunk w name)) w;
  put = λ name bytes w. (ok (Result.ok tt), kept_chunk name bytes w);
  generate_address = λ bytes. pure bytes;
}

abbrev as_decrypted : Result (StorageError toy) Bytes → Result ℕ Bytes
as_decrypted (Result.ok bytes) = Result.ok bytes
as_decrypted (Result.err e) = Result.err 1

abbrev as_map : Bytes → Result (StorageError toy) (Unit {0}) → Result ℕ Bytes
as_map name (Result.ok _) = Result.ok name
as_map name (Result.err e) = Result.err 1

abbrev chunking : EncryptorApi toy
chunking = record {
  new_encryptor = λ storage m. Result.ok m;
  len = length;
  read = λ storage e position len. storage.get e >>= λ r. pure (as_decrypted r);
  write = λ storage e bytes position. pure (Result.ok bytes);
  close = λ storage e. do
    name ← storage.generate_address e
    r ← storage.put name e
    pure (as_map name r);
}

-- The chunk of the map is in the world.
abbrev HasChunk : World toy → Bool → Bytes → Bytes → Type 0
HasChunk w published m bytes = (m ≡ bytes) × (chunk w m ≡ some (Blob.public bytes))

kept_chunk-same :
    (bytes : Bytes) (w : World toy)
    → chunk (kept_chunk bytes bytes w) bytes ≡ some (Blob.public bytes)
kept_chunk-same bytes w =
    rw ((is_yes_iff (same_address (BlobAddress.public bytes) (BlobAddress.public bytes))).1 refl)
      refl

kept_chunk-keeps :
    (bytes m b : Bytes) (w : World toy) (published : Bool)
    → HasChunk w published m b
    → HasChunk (kept_chunk bytes bytes w) published m b
unfolding is_yes
kept_chunk-keeps bytes m b w published (same, there) =
    go (same_address (BlobAddress.public bytes) (BlobAddress.public m)) refl
  where
    go :
        (d : Dec (BlobAddress.public bytes ≡ BlobAddress.public m))
        → same_address (BlobAddress.public bytes) (BlobAddress.public m) ≡ d
        → HasChunk (kept_chunk bytes bytes w) published m b
    go (yes e) h =
        let equal : bytes ≡ b = public-injective bytes m e ∙ same in
        (same, rw h (ap (λ c. some (Blob.public c)) equal))
    go (no n) h = (same, rw h there)

read_all-same :
    (published : Bool) (map : Bytes) (w : World toy)
    → (read_all toy_api chunking (chunk_storage published) map w).1 ≡ w
unfolding read_all
read_all-same published map w = go (chunk w map) refl
  where
    go :
        (o : Option (Blob toy))
        → chunk w map ≡ o
        → (read_all toy_api chunking (chunk_storage published) map w).1 ≡ w
    go none e = rw e refl
    go (some blob) e = rw e refl

chunking-IsStore : IsStore toy_api chunking chunk_storage HasChunk
unfolding encrypt_all read_all
chunking-IsStore = record {
  encrypt-Holds = λ published bytes w m h.
      subst (λ name. HasChunk (kept_chunk bytes bytes w) published name bytes)
        (ok-injective toy bytes m h) (refl, kept_chunk-same bytes w);
  encrypt_keeps = λ published bytes w kind m b holds. kept_chunk-keeps bytes m b w kind holds;
  read-ok = λ published bytes w m holds. rw (holds.1) refl;
  read_keeps = λ published map w kind m b holds.
      subst (λ w'. HasChunk w' kind m b) (sym (read_all-same published map w)) holds;
}

shortening-shrinks :
    (published : Bool) (key : ℕ) (value bytes value' : Bytes) (m : Bytes) (w : World toy)
    → toy_api.blob.validate_size (make_blob toy_api published value key) ≡ false
    → toy_api.blob.serialise_blob (make_blob toy_api published value key) ≡ Result.ok bytes
    → (encrypt_all toy_api shortening (chunks shortening published) bytes w).0 ≡ ok m
    → toy_api.blob.serialise_encoding (DataTypeEncoding.data_map m) ≡ Result.ok value'
    → length value' < length value
unfolding encrypt_all
shortening-shrinks published key value bytes value' m w large written encrypted coded =
    let empty = ok-injective toy [] m encrypted in
    let short : length value' ≡ 2 =
      ap length (sym (Result-injective _ _ coded)) ∙ ap (λ m. length (1 ∷ squeeze m)) (sym empty) in
    let large' = rw (make_blob-value published value key) at large in ground (arith, large', short)

shortening-IsShrinking : IsShrinking toy_api shortening (chunks shortening)
unfolding encrypt_all
shortening-IsShrinking = record { ends = λ published bytes w h. cc h; shrinks = shortening-shrinks }

cached-get-put :
    (c : toy.BlobCache) (a : BlobAddress) (blob : Blob toy)
    → (toy_api.blob.cache_get (toy_api.blob.cache_put c a blob) a).0 ≡ some blob
cached-get-put c a blob = rw ((is_yes_iff (same_address a a)).1 refl) (kept blob)
  where
    kept : (b : Blob toy) → blob_of (some (kept_as b)) ≡ some b
    kept (Blob.public value) = refl
    kept (Blob.private owned) = refl

toy-IsLawfulBlobCache : IsLawfulBlobCache toy_api
toy-IsLawfulBlobCache = record { get-put = cached-get-put }

abbrev ten_zeros : Bytes
ten_zeros = zeros 10 []

unpack-pack_example :
    let last = (pack toy_api chunking chunk_storage 2 8 (0 ∷ ten_zeros) true (world 8 9)).1 in
    (n : ℕ) × (n ≤ 1 + 2)
    × ((unpack toy_api chunking chunk_storage n (Blob.public (1 ∷ 12 ∷ [])) last).0 ≡ ok ten_zeros)
unfolding pack encrypt_all
unpack-pack_example =
    unpack-pack toy_api chunking chunk_storage HasChunk toy-IsCoding chunking-IsStore 2 8 ten_zeros
      (0 ∷ ten_zeros) true (world 8 9)
      (pack toy_api chunking chunk_storage 2 8 (0 ∷ ten_zeros) true (world 8 9)).1
      (Blob.public (1 ∷ 12 ∷ [])) refl refl (λ kind m b holds. holds)

pack-ne-blocked_example :
    (pack toy_api shortening (chunks shortening) 11 8 ten_zeros false (world 8 9)).0 ≢ blocked
pack-ne-blocked_example =
    pack-ne-blocked toy_api shortening (chunks shortening) shortening-IsShrinking 11 8 ten_zeros
      false (world 8 9) (omega arith)

-- A blob of the network, as the toy elders give it.
abbrev network_blob : Blob toy
network_blob = Blob.public (0 ∷ 5 ∷ [])

-- After the query for it.
abbrev asked : World toy
asked =
    (send_query toy_api
      (Query.data_query (DataQuery.blob (BlobRead.get (BlobAddress.public (0 ∷ 5 ∷ [])))))
      (world 8 9)).1

get_blob_again_example :
    let (first, last) =
      get_blob_over toy_api keeping
        (chunks keeping)
        3
        (BlobAddress.public (0 ∷ 5 ∷ []))
        none
        none
        (world 8 9) in
    (first ≡ ok (Blob.public (5 ∷ [])))
    × ((get_blob_over toy_api keeping
          (chunks keeping)
          3
          (BlobAddress.public (0 ∷ 5 ∷ []))
          (some 0)
          (some 1)
          last).0
        ≡ ok network_blob)
unfolding get_blob_over fetch_blob extract_blob_data unpack read_all create_query_message
    create_cmd_message public_key Query.send_query Query.serialise_in_envelope send_each
    Query.usable Query.read_reply elect add_vote votes survey verdict response_eq same_response
    ℕ_discrete is_yes same_address send_query
get_blob_again_example =
    get_blob_again toy_api keeping (chunks keeping) 3 toy-IsLawfulBlobCache
      (BlobAddress.public (0 ∷ 5 ∷ [])) none none (some 0) (some 1) network_blob (5 ∷ [])
      (world 8 9) asked
      (set_blob_cache
        (toy_api.blob.cache_put (λ _. none) (BlobAddress.public (0 ∷ 5 ∷ [])) network_blob) asked)
      refl refl refl refl refl

-- The blob that holds an empty map of data.
abbrev map_blob : Blob toy
map_blob = Blob.public (0 ∷ [])

-- The ten zeros that are stored are in no message. Two messages are sent: one for the payment, and
-- the command, which holds the map of the data.
store_blob_single_write_example :
    (map_blob ≡ map_blob)
    × (p : ℕ) × (id : XorName) × ((create_write_payment_proof toy_api validated (world 8 9)).0
        ≡ ok p)
    × (let w₁ = (create_write_payment_proof toy_api validated (world 8 9)).1 in
        IsSent toy_net w₁.client.connection_manager
          (Message.cmd (Cmd.data_cmd (DataCmd.blob (BlobWrite.new map_blob)) p) id)
          w₁.link
          (store_blob_over toy_api shortening
            (chunks shortening)
            3
            validated
            (Blob.public ten_zeros)
            (world 8 9)).1.link.trace)
unfolding encrypt_all store_blob_over self_encrypt_blob pack create_write_payment_proof get_history
    apply_write_payment_to_local_actor create_query_message create_cmd_message public_key
    Query.send_query Query.send_cmd Query.serialise_in_envelope send_each Query.usable
    Query.read_reply elect add_vote votes survey verdict response_eq same_response ℕ_discrete is_yes
    send_query
store_blob_single_write_example =
    store_blob_single_write toy_api shortening (chunks shortening) 2 validated
      (Blob.public ten_zeros) map_blob [] [] (0 ∷ []) (0 ∷ 0 ∷ []) (world 8 9) refl refl refl refl
      refl refl
