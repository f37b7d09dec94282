-- ===== src/Examples/Toy/Data.antt =====
-- The actor, the sequences and the blobs of the tests.
use native.Mathlib.Decide.{ℕ_discrete}
use safe_client_libs.Shared.{
  ◌⊎◌, inl, inr, ltb, length, ℕ, zero, suc, ◌+◌, ◌++◌, Option, none, some, List, [], ◌∷◌,
}
use safe_client_libs.Shared.{nat_beq, if◌then◌else◌}
use safe_client_libs.External.Protocol.{Blob, BlobAddress, Bytes, Result}
use safe_client_libs.External.Blobs.{BlobApi, DataTypeEncoding}
use safe_client_libs.External.Api.{ActorApi, SequenceApi}
use safe_client_libs.Examples.Toy.Net.{toy, is_yes}

abbrev pub toy_actor : ActorApi toy
toy_actor = record {
  new_actor = λ id keys. 0;
  balance = λ actor. actor;
  synch = λ actor history. Result.ok none;
  receive = λ actor validated. Result.ok (some validated);
  transfer = λ actor amount to. Result.ok (some 1);
  register = λ actor proof. Result.ok (some proof);
  apply = λ actor event. (Result.ok tt, actor + 1);
  proof = some;
  transfer_id = λ t. t;
  from_nano = λ n. n;
  money_from_str = λ _. Result.ok 10;
  set_public_key = λ keys. keys;
  new_dot = λ key n. n;
  apply_inc = λ n. n + 1;
  from_secret_key = λ sk. sk;
  new_bls = λ rng. (rng, rng + 1);
}

abbrev pub put : (ℕ → Option (ℕ × List Bytes)) → ℕ → ℕ × List Bytes → ℕ → Option (ℕ × List Bytes)
put cache address s other = if nat_beq address other then some s else cache other

-- Only the user 8 may write.
abbrev pub permitted : ℕ → Result ℕ (Unit {0})
permitted user = if nat_beq user 8 then Result.ok tt else Result.err 1

abbrev pub toy_sequence : SequenceApi toy
toy_sequence = record {
  new_private = λ key name tag. (tag, []);
  new_pub = λ key name tag. (tag, []);
  address = λ s. s.0;
  set_private_permissions = λ s permissions. (Result.ok 0, s);
  set_pub_permissions = λ s permissions. (Result.ok 0, s);
  set_owner = λ s owner. (owner, s);
  append = λ s entry. (entry, (s.0, s.1 ++ (entry ∷ [])));
  append_action = 0;
  manage_permissions_action = 1;
  check_permission = λ s action user. permitted user;
  last_entry = λ _. none;
  in_range = λ _ _ _. none;
  entries_index = λ _. 0;
  owners_index = λ _. 1;
  permissions_index = λ _. 1;
  owner = λ _ _. some 8;
  pub_permissions = λ _ _. Result.ok 0;
  private_permissions = λ _ _. Result.ok 0;
  user_permissions = λ _ _ _. Result.ok 0;
  no_such_entry = 0;
  empty_cache = λ _ _. none;
  cache_get = λ cache address. (cache address, cache);
  cache_put = put;
}

abbrev pub blob_of : Option (Bytes ⊎ (Bytes × ℕ)) → Option (Blob toy)
blob_of none = none
blob_of (some (inl value)) = some (Blob.public value)
blob_of (some (inr owned)) = some (Blob.private owned)

abbrev pub kept_as : Blob toy → Bytes ⊎ (Bytes × ℕ)
kept_as (Blob.public value) = inl value
kept_as (Blob.private owned) = inr owned

abbrev pub value_of_blob : Blob toy → Bytes
value_of_blob (Blob.public value) = value
value_of_blob (Blob.private (value, owner)) = value

abbrev pub address_of_blob : Blob toy → BlobAddress
address_of_blob (Blob.public value) = BlobAddress.public value
address_of_blob (Blob.private (value, owner)) = BlobAddress.private value

unfoldable pub same_address : Discrete BlobAddress
same_address = hlevel ℕ_discrete

-- A public blob is written with a 0 before it, and a private one with its owner before it.
abbrev pub written_blob : Blob toy → Bytes
written_blob (Blob.public value) = 0 ∷ value
written_blob (Blob.private (value, owner)) = suc owner ∷ value

abbrev pub read_blob : Bytes → Result ℕ (Blob toy)
read_blob [] = Result.err 0
read_blob (zero ∷ value) = Result.ok (Blob.public value)
read_blob (suc owner ∷ value) = Result.ok (Blob.private (value, owner))

-- Bytes that start with zeros, shorter: the number of these zeros comes first.
abbrev pub count_up : Bytes → Bytes
count_up [] = []
count_up (n ∷ rest) = suc n ∷ rest

abbrev pub squeeze : Bytes → Bytes
squeeze [] = 0 ∷ []
squeeze (zero ∷ rest) = count_up (squeeze rest)
squeeze (suc n ∷ rest) = 0 ∷ suc n ∷ rest

abbrev pub zeros : ℕ → Bytes → Bytes
zeros zero rest = rest
zeros (suc n) rest = 0 ∷ zeros n rest

abbrev pub unsqueeze : Bytes → Bytes
unsqueeze [] = []
unsqueeze (n ∷ rest) = zeros n rest

abbrev pub written_encoding : DataTypeEncoding toy → Bytes
written_encoding (DataTypeEncoding.serialised value) = 0 ∷ value
written_encoding (DataTypeEncoding.data_map value) = 1 ∷ squeeze value

abbrev pub read_encoding : Bytes → Result ℕ (DataTypeEncoding toy)
read_encoding [] = Result.err 0
read_encoding (zero ∷ value) = Result.ok (DataTypeEncoding.serialised value)
read_encoding (suc _ ∷ value) = Result.ok (DataTypeEncoding.data_map (unsqueeze value))

-- A map of data holds the data, and so does an encryptor. Blobs of less than four bytes fit.
abbrev pub toy_blob : BlobApi toy
toy_blob = record {
  new_public = λ value. value;
  new_private = λ value owner. (value, owner);
  value = value_of_blob;
  address = address_of_blob;
  validate_size = λ blob. ltb (length (value_of_blob blob)) 4;
  serialise_blob = λ blob. Result.ok (written_blob blob);
  deserialise_blob = read_blob;
  xor_name_len = 32;
  no_map = [];
  serialise_map = λ m. Result.ok m;
  deserialise_map = λ bytes. Result.ok bytes;
  serialise_encoding = λ e. Result.ok (written_encoding e);
  deserialise_encoding = read_encoding;
  display_encryption = λ _. "encryption";
  empty_cache = λ _ _. none;
  cache_get = λ cache address. (blob_of (cache address), cache);
  cache_put = λ cache address blob other.
      if is_yes (same_address address other) then some (kept_as blob) else cache other;
}
