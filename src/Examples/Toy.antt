-- ===== src/Examples/Toy.antt =====
-- A network in which every elder answers a query with the query's number, and all that other crates
-- keep is a number, a pair or a list.
mod Net
mod Data
unfoldable pub use Net.*
unfoldable pub use Data.*
use native.Mathlib.Decide.{ℕ_discrete}
use safe_client_libs.Shared.{
  ◌⊎◌, inl, inr, ltb, length, ℕ, zero, suc, ◌+◌, ◌++◌, Bool, true, false, Option, none, some, List,
  [], ◌∷◌,
}
use safe_client_libs.Shared.{◌≡◌, refl, ◌↔◌, PartialEq, nat_beq, if◌then◌else◌}
use safe_client_libs.External.Types.{Types}
use safe_client_libs.External.Protocol.{
  Blob, BlobAddress, Bytes, Result, Map, QueryResponse, Query, TransferQuery, DataQuery, Message,
  HandshakeRequest, HandshakeResponse,
}
use safe_client_libs.External.Blobs.{BlobApi, DataTypeEncoding}
use safe_client_libs.External.Api.{NetApi, ActorApi, SequenceApi, Api}
use safe_client_libs.Connection.Link.{ConnectionManager, Link}
use safe_client_libs.Client.State.{World}
use safe_client_libs.Errors.{ErrorText, Category}

abbrev pub toy_api : Api toy
toy_api = record {
  net = toy_net;
  actor = toy_actor;
  sequence = toy_sequence;
  blob = toy_blob;
  debug_response = λ _. "response";
  debug_event = λ _. "event";
  debug_public_key = λ _. "key";
}

-- A connection manager with these elders, on a network that hands over this many results.
abbrev pub manager : List ℕ → ConnectionManager toy
manager elders = record { full_id = 8; quic_p2p = 7; elders = elders }

abbrev pub link : ℕ → Link toy
link net = record { net = net; rng = 40; trace = [] }

-- A client of this user, with three elders and one sequence in its cache, at 5.
abbrev pub world : ℕ → ℕ → World toy
world user net = record {
  client = record {
    full_id = user;
    blob_cache = λ _. none;
    sequence_cache = put (λ _. none) 5 (5, []);
    transfer_actor = 0;
    replicas_pk_set = 9;
    simulated_farming_payout_dot = 0;
    connection_manager = record (manager (1 ∷ 2 ∷ 3 ∷ [])) { full_id = user };
  };
  link = link net;
}
