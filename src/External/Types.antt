-- ===== src/External/Types.antt =====
-- The types of other crates, whose insides the client does not look at.
pub record Types : Type 1 where
  -- errors: bincode, safe_nd, serde_json, std::io, quic_p2p
  pub SerialisationError : Type 0
  pub SndError : Type 0
  pub JsonError : Type 0
  pub IoError : Type 0
  pub QuicError : Type 0
  -- identities: safe_nd, threshold_crypto
  pub PublicKey : Type 0
  pub BlsKey : Type 0
  pub FullId : Type 0
  pub SecretKey : Type 0
  pub Signature : Type 0
  pub BlsSignature : Type 0
  pub PublicKeySet : Type 0
  -- money: safe_nd, safe_transfers, crdts
  pub Money : Type 0
  pub Dot : Type 0
  pub DebitAgreementProof : Type 0
  pub SignedTransfer : Type 0
  pub TransferId : Type 0
  pub TransferHistory : Type 0
  pub SynchedTransfers : Type 0
  pub TransferValidated : Type 0
  pub TransferValidationReceived : Type 0
  pub TransferRegistrationSent : Type 0
  pub Actor : Type 0
  -- sequences
  pub Sequence : Type 0
  pub SequenceAddress : Type 0
  pub SequenceIndex : Type 0
  pub SequenceUser : Type 0
  pub SequenceCache : Type 0
  pub SequenceAction : Type 0
  pub EntryOp : Type 0
  pub OwnerOp : Type 0
  pub PrivatePermissionsOp : Type 0
  pub PublicPermissionsOp : Type 0
  pub PrivateUserPermissions : Type 0
  pub PublicUserPermissions : Type 0
  pub PrivatePermissions : Type 0
  pub PublicPermissions : Type 0
  pub UserPermissions : Type 0
  -- maps
  pub SeqMap : Type 0
  pub UnseqMap : Type 0
  pub SeqEntryActions : Type 0
  pub UnseqEntryActions : Type 0
  pub MapPermissionSet : Type 0
  pub MapPermissions : Type 0
  -- blobs
  pub PublicBlob : Type 0
  pub PrivateBlob : Type 0
  pub BlobCache : Type 0
  -- self_encryption
  pub DataMap : Type 0
  pub Encryptor : Type 0
  pub EncryptionError : Type 0
  -- the network: quic_p2p connections, addresses, and the state of what lies outside
  pub Connection : Type 0
  pub SocketAddr : Type 0
  pub QuicP2p : Type 0
  pub QuicConfig : Type 0
  pub Net : Type 0
  pub Rng : Type 0
