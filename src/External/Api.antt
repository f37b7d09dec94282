-- ===== src/External/Api.antt =====
-- The functions of other crates that the client calls.
use safe_client_libs.Shared.{ℕ, Bool, String, Option, List, PartialEq}
use safe_client_libs.External.Types.{Types}
use safe_client_libs.Errors.{ErrorText}
use safe_client_libs.External.Blobs.{BlobApi}
use safe_client_libs.External.Protocol.{
  Bytes, XorName, Result, Message, MsgEnvelope, HandshakeRequest, HandshakeResponse, QueryResponse,
  ActorEvent, Event,
}

-- bincode, `safe_nd` identities, quic_p2p and the executor. A call on the network takes the state
-- of what lies outside and gives a new one.
pub record NetApi (T : Types) : Type 0 where
  pub text : ErrorText T
  pub serialise_message : Message T → Result T.SerialisationError Bytes
  pub serialise_envelope : MsgEnvelope T → Result T.SerialisationError Bytes
  -- the message of the envelope
  pub deserialise_envelope : Bytes → Result T.SerialisationError (Message T)
  pub serialise_handshake : HandshakeRequest T → Result T.SerialisationError Bytes
  pub deserialise_handshake : Bytes → Result T.SerialisationError (HandshakeResponse T)
  pub public_key : T.FullId → T.PublicKey
  pub sign : T.FullId → Bytes → T.Signature
  pub bls : T.PublicKey → Option T.BlsKey
  pub into_bls : T.Signature → Option T.BlsSignature
  -- the configuration with this port
  pub with_port : T.QuicConfig → ℕ → T.QuicConfig
  pub with_config : T.QuicConfig → T.Net → Result T.QuicError T.QuicP2p × T.Net
  pub bootstrap : T.QuicP2p → T.Net → Result T.QuicError T.Connection × T.Net
  pub connect_to : T.QuicP2p → T.SocketAddr → T.Net → Result T.QuicError T.Connection × T.Net
  pub send : T.Connection → Bytes → T.Net → Result T.QuicError Bytes × T.Net
  pub send_only : T.Connection → Bytes → T.Net → Result T.QuicError (Unit {0}) × T.Net
  -- the order in which tasks for these elders come to their end
  pub elders_order : T.Net → List T.Connection → List T.Connection
  pub addresses_order : T.Net → List T.SocketAddr → List T.SocketAddr
  -- whether the executor hands over the result of a task that has ended
  pub joined : T.Net → Bool × T.Net
  pub response_eq : PartialEq (QueryResponse T)
  -- the order in which a walk meets the entries of the vote map
  pub iterate : List (QueryResponse T × ℕ) → List (QueryResponse T × ℕ)
  -- texts of `{:?}`
  pub debug_serialisation : T.SerialisationError → String
  pub random_name : T.Rng → XorName × T.Rng

-- The local transfer actor of `safe_transfers`. Its queries leave it as it is, and only `apply`
-- changes it.
pub record ActorApi (T : Types) : Type 0 where
  pub new_actor : T.FullId → T.PublicKeySet → T.Actor
  pub balance : T.Actor → T.Money
  pub synch : T.Actor → T.TransferHistory → Result T.SndError (Option T.SynchedTransfers)
  pub receive :
      T.Actor → T.TransferValidated → Result T.SndError (Option T.TransferValidationReceived)
  -- the signed transfer of the event
  pub transfer : T.Actor → T.Money → T.PublicKey → Result T.SndError (Option T.SignedTransfer)
  pub register :
      T.Actor → T.DebitAgreementProof → Result T.SndError (Option T.TransferRegistrationSent)
  pub apply : T.Actor → ActorEvent T → Result T.SndError (Unit {0}) × T.Actor
  pub proof : T.TransferValidationReceived → Option T.DebitAgreementProof
  pub transfer_id : T.SignedTransfer → T.TransferId
  pub from_nano : ℕ → T.Money
  pub money_from_str : String → Result T.SndError T.Money
  pub set_public_key : T.PublicKeySet → T.PublicKey
  pub new_dot : T.PublicKey → ℕ → T.Dot
  pub apply_inc : T.Dot → T.Dot
  pub from_secret_key : T.SecretKey → T.FullId
  pub new_bls : T.Rng → T.FullId × T.Rng

-- The CRDT of a sequence, of `safe_nd`, and the cache of sequences, of `lru`.
pub record SequenceApi (T : Types) : Type 0 where
  pub new_private : T.PublicKey → XorName → ℕ → T.Sequence
  pub new_pub : T.PublicKey → XorName → ℕ → T.Sequence
  pub address : T.Sequence → T.SequenceAddress
  pub set_private_permissions :
      T.Sequence
      → List (T.PublicKey × T.PrivateUserPermissions)
      → Result T.SndError T.PrivatePermissionsOp × T.Sequence
  pub set_pub_permissions :
      T.Sequence
      → List (T.SequenceUser × T.PublicUserPermissions)
      → Result T.SndError T.PublicPermissionsOp × T.Sequence
  pub set_owner : T.Sequence → T.PublicKey → T.OwnerOp × T.Sequence
  pub append : T.Sequence → Bytes → T.EntryOp × T.Sequence
  pub append_action : T.SequenceAction
  pub manage_permissions_action : T.SequenceAction
  pub check_permission : T.Sequence → T.SequenceAction → T.PublicKey → Result T.SndError (Unit {0})
  pub last_entry : T.Sequence → Option Bytes
  pub in_range : T.Sequence → T.SequenceIndex → T.SequenceIndex → Option (List Bytes)
  pub entries_index : T.Sequence → ℕ
  pub owners_index : T.Sequence → ℕ
  pub permissions_index : T.Sequence → ℕ
  pub owner : T.Sequence → ℕ → Option T.PublicKey
  pub pub_permissions : T.Sequence → ℕ → Result T.SndError T.PublicPermissions
  pub private_permissions : T.Sequence → ℕ → Result T.SndError T.PrivatePermissions
  pub user_permissions : T.Sequence → T.SequenceUser → ℕ → Result T.SndError T.UserPermissions
  pub no_such_entry : T.SndError
  pub empty_cache : ℕ → T.SequenceCache
  pub cache_get : T.SequenceCache → T.SequenceAddress → Option T.Sequence × T.SequenceCache
  pub cache_put : T.SequenceCache → T.SequenceAddress → T.Sequence → T.SequenceCache

-- All that the client calls, with the texts of `{:?}` that stand in its errors.
pub record Api (T : Types) : Type 0 where
  pub net : NetApi T
  pub actor : ActorApi T
  pub sequence : SequenceApi T
  pub blob : BlobApi T
  pub debug_response : QueryResponse T → String
  pub debug_event : Event T → String
  pub debug_public_key : T.PublicKey → String
