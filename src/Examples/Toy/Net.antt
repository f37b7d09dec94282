-- ===== src/Examples/Toy/Net.antt =====
-- The types, the messages and the network of the tests.
use native.Mathlib.Decide.{ℕ_discrete}
use safe_client_libs.Shared.{◌⊎◌, ℕ, zero, suc, ◌+◌, Bool, true, false, Option, some, List, [], ◌∷◌}
use safe_client_libs.Shared.{◌≡◌, refl, ◌↔◌, PartialEq, nat_beq, if◌then◌else◌}
use safe_client_libs.External.Types.{Types}
use safe_client_libs.External.Protocol.{
  Blob, BlobAddress, Bytes, Result, Map, QueryResponse, Query, TransferQuery, DataQuery, Message,
  HandshakeRequest, HandshakeResponse,
}
use safe_client_libs.External.Api.{NetApi}
use safe_client_libs.Errors.{ErrorText, Category}

abbrev pub toy : Types
toy = record {
  SerialisationError = ℕ;
  SndError = ℕ;
  JsonError = ℕ;
  IoError = ℕ;
  QuicError = ℕ;
  PublicKey = ℕ;
  BlsKey = ℕ;
  FullId = ℕ;
  SecretKey = ℕ;
  Signature = Bytes;
  BlsSignature = Bytes;
  PublicKeySet = ℕ;
  Money = ℕ;
  Dot = ℕ;
  DebitAgreementProof = ℕ;
  SignedTransfer = ℕ;
  TransferId = ℕ;
  TransferHistory = ℕ;
  SynchedTransfers = ℕ;
  TransferValidated = ℕ;
  TransferValidationReceived = ℕ;
  TransferRegistrationSent = ℕ;
  Actor = ℕ;
  Sequence = ℕ × List Bytes;
  SequenceAddress = ℕ;
  SequenceIndex = ℕ;
  SequenceUser = ℕ;
  SequenceCache = ℕ → Option (ℕ × List Bytes);
  SequenceAction = ℕ;
  EntryOp = Bytes;
  OwnerOp = ℕ;
  PrivatePermissionsOp = ℕ;
  PublicPermissionsOp = ℕ;
  PrivateUserPermissions = ℕ;
  PublicUserPermissions = ℕ;
  PrivatePermissions = ℕ;
  PublicPermissions = ℕ;
  UserPermissions = ℕ;
  SeqMap = ℕ;
  UnseqMap = ℕ;
  SeqEntryActions = ℕ;
  UnseqEntryActions = ℕ;
  MapPermissionSet = ℕ;
  MapPermissions = ℕ;
  PublicBlob = Bytes;
  PrivateBlob = Bytes × ℕ;
  BlobCache = BlobAddress → Option (Bytes ⊎ (Bytes × ℕ));
  DataMap = Bytes;
  Encryptor = Bytes;
  EncryptionError = ℕ;
  Connection = ℕ;
  SocketAddr = ℕ;
  QuicP2p = ℕ;
  QuicConfig = ℕ;
  Net = ℕ;
  Rng = ℕ;
}

unfoldable pub same_response : Discrete (QueryResponse toy)
same_response = hlevel ℕ_discrete

unfoldable pub is_yes : {A : Type 0} → Dec A → Bool
is_yes (yes _) = true
is_yes (no _) = false

pub is_yes_iff : {A : Type 0} (d : Dec A) → (is_yes d ≡ true) ↔ A
unfolding is_yes
is_yes_iff (yes a) = (λ _. a, λ _. refl)
is_yes_iff (no b) = (λ h. cc h, λ a. absurd (b a))

unfoldable pub response_eq : PartialEq (QueryResponse toy)
unfolding is_yes is_yes_iff
response_eq = record {
  same = λ r s. is_yes (same_response r s);
  same_iff = λ r s. is_yes_iff (same_response r s);
}

abbrev pub toy_text : ErrorText toy
toy_text = record {
  display_serialisation = λ _. "bincode";
  debug_serialisation = λ _. "bincode";
  display_snd = λ _. "data";
  debug_snd = λ _. "data";
  display_json = λ _. "json";
  debug_json = λ _. "json";
  display_io = λ _. "io";
  debug_io = λ _. "io";
  display_quic = λ _. "quic";
  debug_quic = λ _. "quic";
  debug_string = λ s. s;
  classify = λ _. Category.syntax;
  into_io = λ e. e;
}

-- A message goes out as a tag. An elder sends the tag back, and reads it as its answer.
abbrev pub written : Message toy → Bytes
written (Message.query (Query.transfer (TransferQuery.get_history _ _)) _) = 1 ∷ []
written (Message.query (Query.transfer (TransferQuery.get_replica_keys _)) _) = 2 ∷ []
written (Message.query (Query.transfer (TransferQuery.get_balance _)) _) = 3 ∷ []
written (Message.query (Query.data_query (DataQuery.sequence _)) _) = 4 ∷ []
written (Message.query (Query.data_query (DataQuery.map _)) _) = 5 ∷ []
written (Message.query (Query.data_query (DataQuery.blob _)) _) = 6 ∷ []
written _ = 0 ∷ []

abbrev pub answer : Bytes → Message toy
answer [] = Message.other
answer (n ∷ _) =
    if nat_beq n 1
    then Message.query_response (QueryResponse.get_history (Result.ok 0))
    else (if nat_beq n 2
        then Message.query_response (QueryResponse.get_replica_keys (Result.ok 9))
        else (if nat_beq n 3
            then Message.query_response (QueryResponse.get_balance (Result.ok 100))
            else (if nat_beq n 4
                then Message.query_response (QueryResponse.get_sequence (Result.ok (5, [])))
                else (if nat_beq n 5
                    then Message.query_response (QueryResponse.get_map (Result.ok (Map.seq 6)))
                    else (if nat_beq n 6
                        then Message.query_response
                            (QueryResponse.get_blob (Result.ok (Blob.public (0 ∷ 5 ∷ []))))
                        else Message.other)))))

abbrev pub handshake : HandshakeRequest toy → Bytes
handshake (HandshakeRequest.bootstrap _) = 10 ∷ []
handshake (HandshakeRequest.join _) = 11 ∷ []
handshake (HandshakeRequest.challenge_result _) = 12 ∷ []

abbrev pub handshake_answer : Bytes → HandshakeResponse toy
handshake_answer [] = HandshakeResponse.other
handshake_answer (n ∷ _) =
    if nat_beq n 10
    then HandshakeResponse.join (([], 1) ∷ ([], 2) ∷ ([], 3) ∷ ([], 4) ∷ [])
    else (if nat_beq n 11 then HandshakeResponse.challenge 0 [] else HandshakeResponse.other)

-- The network hands over the results of as many tasks as its number says.
abbrev pub countdown : ℕ → Bool × ℕ
countdown zero = (false, zero)
countdown (suc n) = (true, n)

abbrev pub toy_net : NetApi toy
toy_net = record {
  text = toy_text;
  serialise_message = λ m. Result.ok (written m);
  serialise_envelope = λ e. Result.ok (written e.message);
  deserialise_envelope = λ bytes. Result.ok (answer bytes);
  serialise_handshake = λ h. Result.ok (handshake h);
  deserialise_handshake = λ bytes. Result.ok (handshake_answer bytes);
  public_key = λ id. id;
  sign = λ _ bytes. bytes;
  bls = some;
  into_bls = some;
  with_port = λ config port. port;
  with_config = λ config net. (Result.ok 7, net);
  bootstrap = λ quic net. (Result.ok 0, net);
  connect_to = λ quic addr net. (Result.ok addr, net);
  send = λ conn bytes net. (Result.ok bytes, net);
  send_only = λ conn bytes net. (Result.ok tt, net);
  elders_order = λ _ elders. elders;
  addresses_order = λ _ addrs. addrs;
  joined = countdown;
  response_eq = response_eq;
  iterate = λ m. m;
  debug_serialisation = λ _. "bincode";
  random_name = λ rng. (rng ∷ [], rng + 1);
}
