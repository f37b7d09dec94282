-- ===== src/Errors.antt =====
-- `CoreError` (src/errors.rs): the error of every call of the client, its conversions and its texts.
use safe_client_libs.Shared.{String, ◌<>◌, Option, none, some}
use safe_client_libs.External.Types.{Types}

pub data CoreError (T : Types) : Type 0 where
  encode_decode_error : T.SerialisationError → CoreError T
  asymmetric_decipher_failure symmetric_decipher_failure : CoreError T
  received_unexpected_data received_unexpected_event : CoreError T
  version_cache_miss root_directory_exists : CoreError T
  random_data_generation_failure operation_forbidden : CoreError T
  unexpected : String → CoreError T
  data_error : T.SndError → CoreError T
  unsupported_salt_size_for_pw_hash unsuccessful_pw_hash : CoreError T
  operation_aborted request_timeout : CoreError T
  config_error : T.JsonError → CoreError T
  io_error : T.IoError → CoreError T
  quic_p2p : T.QuicError → CoreError T

-- `serde_json::error::Category`
pub data Category : Type 0 where
  io syntax data_category eof : Category

-- What the errors of other crates say of themselves: their `Display` and `Debug` texts, and how
-- `serde_json` classifies its own. `debug_string` is the `Debug` of a text.
pub record ErrorText (T : Types) : Type 0 where
  pub display_serialisation : T.SerialisationError → String
  pub debug_serialisation : T.SerialisationError → String
  pub display_snd : T.SndError → String
  pub debug_snd : T.SndError → String
  pub display_json : T.JsonError → String
  pub debug_json : T.JsonError → String
  pub display_io : T.IoError → String
  pub debug_io : T.IoError → String
  pub display_quic : T.QuicError → String
  pub debug_quic : T.QuicError → String
  pub debug_string : String → String
  pub classify : T.JsonError → Category
  pub into_io : T.JsonError → T.IoError

module _ {T : Types} where
  -- `From<&str>` and `From<String>`
  abbrev pub from_text : String → CoreError T
  from_text error = CoreError.unexpected error

  -- `From<SendError>`, from the error's text
  abbrev pub from_send_error : String → CoreError T
  from_send_error error = from_text ("Couldn't send message to the channel: " <> error)

  abbrev pub from_serialisation : T.SerialisationError → CoreError T
  from_serialisation error = CoreError.encode_decode_error error

  abbrev pub from_snd : T.SndError → CoreError T
  from_snd error = CoreError.data_error error

  -- `From<mpsc::RecvError>`
  abbrev pub from_recv_error : CoreError T
  from_recv_error = CoreError.operation_aborted

  abbrev pub from_io : T.IoError → CoreError T
  from_io error = CoreError.io_error error

  abbrev pub from_quic : T.QuicError → CoreError T
  from_quic error = CoreError.quic_p2p error

  -- The error that `StdError::cause` names, by its `Display` text.
  unfoldable pub cause : ErrorText T → CoreError T → Option String
  cause X (CoreError.encode_decode_error error) = some (X.display_serialisation error)
  cause X (CoreError.data_error error) = some (X.display_snd error)
  cause X (CoreError.quic_p2p error) = some (X.display_quic error)
  cause X _ = none

module _ {T : Types} (X : ErrorText T) where
  -- `From<serde_json::error::Error>`
  unfoldable pub from_json : T.JsonError → CoreError T
  from_json error = elim (X.classify error) [
    | Category.io ↦ from_io (X.into_io error)
    | _ ↦ CoreError.config_error error
  ]

  unfoldable pub display : CoreError T → String
  display (CoreError.encode_decode_error error) =
      "Error while serialising/deserialising: " <> X.display_serialisation error
  display CoreError.asymmetric_decipher_failure = "Asymmetric decryption failed"
  display CoreError.symmetric_decipher_failure = "Symmetric decryption failed"
  display CoreError.received_unexpected_data = "Received unexpected data"
  display CoreError.received_unexpected_event = "Received unexpected event"
  display CoreError.version_cache_miss = "No such data found in local version cache"
  display CoreError.root_directory_exists = "Cannot overwrite a root directory if it already exists"
  display CoreError.random_data_generation_failure = "Unable to obtain generator for random data"
  display CoreError.operation_forbidden = "Forbidden operation requested"
  display (CoreError.unexpected error) = "Unexpected: " <> error
  display (CoreError.data_error error) = "Data error -> " <> X.display_snd error
  display CoreError.unsupported_salt_size_for_pw_hash =
      "Unable to pack into or operate with size of Salt"
  display CoreError.unsuccessful_pw_hash = "Unable to complete computation for password hashing"
  display CoreError.operation_aborted = "Blocking operation was cancelled"
  display CoreError.request_timeout = "RequestTimeout"
  display (CoreError.config_error error) = "Config file error: " <> X.display_json error
  display (CoreError.io_error error) = "Io error: " <> X.display_io error
  display (CoreError.quic_p2p error) = "QuicP2P error: " <> X.display_quic error

  -- The name of the variant and the `Debug` of what it holds.
  debug_variant : CoreError T → String
  debug_variant (CoreError.encode_decode_error error) =
      "CoreError::EncodeDecodeError -> " <> X.debug_serialisation error
  debug_variant CoreError.asymmetric_decipher_failure = "CoreError::AsymmetricDecipherFailure"
  debug_variant CoreError.symmetric_decipher_failure = "CoreError::SymmetricDecipherFailure"
  debug_variant CoreError.received_unexpected_data = "CoreError::ReceivedUnexpectedData"
  debug_variant CoreError.received_unexpected_event = "CoreError::ReceivedUnexpectedEvent"
  debug_variant CoreError.version_cache_miss = "CoreError::VersionCacheMiss"
  debug_variant CoreError.root_directory_exists = "CoreError::RootDirectoryExists"
  debug_variant CoreError.random_data_generation_failure = "CoreError::RandomDataGenerationFailure"
  debug_variant CoreError.operation_forbidden = "CoreError::OperationForbidden"
  debug_variant (CoreError.unexpected error) =
      "CoreError::Unexpected::{" <> X.debug_string error <> "}"
  debug_variant (CoreError.data_error error) = "CoreError::DataError -> " <> X.debug_snd error
  debug_variant CoreError.unsupported_salt_size_for_pw_hash =
      "CoreError::UnsupportedSaltSizeForPwHash"
  debug_variant CoreError.unsuccessful_pw_hash = "CoreError::UnsuccessfulPwHash"
  debug_variant CoreError.operation_aborted = "CoreError::OperationAborted"
  debug_variant CoreError.request_timeout = "CoreError::RequestTimeout"
  debug_variant (CoreError.config_error error) = "CoreError::ConfigError -> " <> X.debug_json error
  debug_variant (CoreError.io_error error) = "CoreError::IoError -> " <> X.debug_io error
  debug_variant (CoreError.quic_p2p error) = "CoreError::QuicP2p -> " <> X.debug_quic error

  unfoldable pub debug : CoreError T → String
  unfolding debug_variant
  debug error = display error <> " - " <> debug_variant error
