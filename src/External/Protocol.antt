-- ===== src/External/Protocol.antt =====
-- The messages of `safe_nd`, by the variants that the client builds or matches on. Where the crate
-- has more variants than the client names, `other` stands for them.
use safe_client_libs.Shared.{ℕ, List}
use safe_client_libs.External.Types.{Types}

abbrev pub Bytes : Type 0
Bytes = List ℕ

abbrev pub XorName : Type 0
XorName = Bytes

pub data Result (E A : Type 0) : Type 0 where
  ok : A → Result E A
  err : E → Result E A

pub data MapAddress : Type 0 where
  seq : XorName → ℕ → MapAddress
  unseq : XorName → ℕ → MapAddress

pub data BlobAddress : Type 0 where
  public : XorName → BlobAddress
  private : XorName → BlobAddress

pub record MapSeqValue : Type 0 where
  pub value : Bytes
  pub version : ℕ

-- `MapSeqEntryAction`
pub data MapSeqEntryAction : Type 0 where
  ins update : MapSeqValue → MapSeqEntryAction
  del : ℕ → MapSeqEntryAction

pub data Map (T : Types) : Type 0 where
  seq : T.SeqMap → Map T
  unseq : T.UnseqMap → Map T

pub data MapValue : Type 0 where
  seq : MapSeqValue → MapValue
  unseq : Bytes → MapValue

pub data MapValues : Type 0 where
  seq : List MapSeqValue → MapValues
  unseq : List Bytes → MapValues

pub data MapEntries : Type 0 where
  seq : List (Bytes × MapSeqValue) → MapEntries
  unseq : List (Bytes × Bytes) → MapEntries

pub data MapEntryActions (T : Types) : Type 0 where
  seq : T.SeqEntryActions → MapEntryActions T
  unseq : T.UnseqEntryActions → MapEntryActions T

pub data Blob (T : Types) : Type 0 where
  public : T.PublicBlob → Blob T
  private : T.PrivateBlob → Blob T

pub data MapRead (T : Types) : Type 0 where
  get get_shell get_version list_entries list_keys list_values list_permissions :
      MapAddress → MapRead T
  get_value : MapAddress → Bytes → MapRead T
  list_user_permissions : MapAddress → T.PublicKey → MapRead T

pub data MapWrite (T : Types) : Type 0 where
  new : Map T → MapWrite T
  delete : MapAddress → MapWrite T
  edit : MapAddress → MapEntryActions T → MapWrite T
  del_user_permissions : MapAddress → T.PublicKey → ℕ → MapWrite T
  set_user_permissions : MapAddress → T.PublicKey → T.MapPermissionSet → ℕ → MapWrite T

pub data SequenceRead (T : Types) : Type 0 where
  get : T.SequenceAddress → SequenceRead T

pub data SequenceWrite (T : Types) : Type 0 where
  new : T.Sequence → SequenceWrite T
  delete : T.SequenceAddress → SequenceWrite T
  edit : T.EntryOp → SequenceWrite T
  set_owner : T.OwnerOp → SequenceWrite T
  set_private_permissions : T.PrivatePermissionsOp → SequenceWrite T
  set_public_permissions : T.PublicPermissionsOp → SequenceWrite T

pub data BlobRead : Type 0 where
  get : BlobAddress → BlobRead

pub data BlobWrite (T : Types) : Type 0 where
  new : Blob T → BlobWrite T
  delete_private : BlobAddress → BlobWrite T

pub data DataQuery (T : Types) : Type 0 where
  map : MapRead T → DataQuery T
  sequence : SequenceRead T → DataQuery T
  blob : BlobRead → DataQuery T

pub data TransferQuery (T : Types) : Type 0 where
  get_balance : T.PublicKey → TransferQuery T
  get_replica_keys : T.PublicKey → TransferQuery T
  get_history : T.PublicKey → ℕ → TransferQuery T

pub data Query (T : Types) : Type 0 where
  data_query : DataQuery T → Query T
  transfer : TransferQuery T → Query T

pub data DataCmd (T : Types) : Type 0 where
  map : MapWrite T → DataCmd T
  sequence : SequenceWrite T → DataCmd T
  blob : BlobWrite T → DataCmd T

pub record Transfer (T : Types) : Type 0 where
  pub to : T.PublicKey
  pub amount : T.Money
  pub id : T.Dot

pub data TransferCmd (T : Types) : Type 0 where
  validate_transfer : T.SignedTransfer → TransferCmd T
  register_transfer : T.DebitAgreementProof → TransferCmd T
  simulate_payout : Transfer T → TransferCmd T

pub data Cmd (T : Types) : Type 0 where
  transfer : TransferCmd T → Cmd T
  data_cmd : DataCmd T → T.DebitAgreementProof → Cmd T

-- A response carries what the elders answered: a value, or an error of theirs.
pub data QueryResponse (T : Types) : Type 0 where
  get_map get_map_shell : Result T.SndError (Map T) → QueryResponse T
  get_map_value : Result T.SndError MapValue → QueryResponse T
  get_map_version : Result T.SndError ℕ → QueryResponse T
  list_map_entries : Result T.SndError MapEntries → QueryResponse T
  list_map_keys : Result T.SndError (List Bytes) → QueryResponse T
  list_map_values : Result T.SndError MapValues → QueryResponse T
  list_map_user_permissions : Result T.SndError T.MapPermissionSet → QueryResponse T
  list_map_permissions : Result T.SndError T.MapPermissions → QueryResponse T
  get_sequence : Result T.SndError T.Sequence → QueryResponse T
  get_blob : Result T.SndError (Blob T) → QueryResponse T
  get_history : Result T.SndError T.TransferHistory → QueryResponse T
  get_balance : Result T.SndError T.Money → QueryResponse T
  get_replica_keys : Result T.SndError T.PublicKeySet → QueryResponse T
  other : QueryResponse T

pub data Event (T : Types) : Type 0 where
  transfer_validated : T.TransferValidated → Event T
  other : Event T

pub data Message (T : Types) : Type 0 where
  cmd : Cmd T → XorName → Message T
  query : Query T → XorName → Message T
  query_response : QueryResponse T → Message T
  event : Event T → Message T
  other : Message T

-- `MsgEnvelope` with a client's proof for its origin.
pub record MsgEnvelope (T : Types) : Type 0 where
  pub message : Message T
  pub public_key : T.BlsKey
  pub signature : T.BlsSignature

pub data HandshakeRequest (T : Types) : Type 0 where
  bootstrap : T.PublicKey → HandshakeRequest T
  join : T.PublicKey → HandshakeRequest T
  challenge_result : T.Signature → HandshakeRequest T

pub data HandshakeResponse (T : Types) : Type 0 where
  rebootstrap : HandshakeResponse T
  join : List (XorName × T.SocketAddr) → HandshakeResponse T
  challenge : T.PublicKey → Bytes → HandshakeResponse T
  other : HandshakeResponse T

-- `ActorEvent` of `safe_transfers`
pub data ActorEvent (T : Types) : Type 0 where
  transfers_synched : T.SynchedTransfers → ActorEvent T
  transfer_initiated : T.SignedTransfer → ActorEvent T
  transfer_validation_received : T.TransferValidationReceived → ActorEvent T
  transfer_registration_sent : T.TransferRegistrationSent → ActorEvent T
