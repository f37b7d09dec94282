-- ===== src/Client/Maps/Laws.antt =====
-- When the reads of maps return.
use safe_client_libs.Shared.{ℕ, ◌≡◌, ◌↔◌, arith}
use safe_client_libs.External.Types.{Types}
use safe_client_libs.External.Protocol.{
  Bytes, XorName, Result, Map, MapAddress, MapSeqValue, MapValue, MapRead, QueryResponse,
}
use safe_client_libs.External.Api.{Api}
use safe_client_libs.Exec.{ok}
use safe_client_libs.Client.State.{World, send_query}
use safe_client_libs.Client.Maps.Reads.{
  wrap_map_read, get_seq_map, get_unseq_map, get_seq_map_value, get_unseq_map_value,
}

module _ {T : Types} (X : Api T) where
  -- A read of a whole map returns exactly when the elders give a map of the kind that was asked for,
  -- and returns that map.
  pub get_map_iff :
      (name : XorName) (tag : ℕ) (w : World T) (s : T.SeqMap) (u : T.UnseqMap)
      → (((get_seq_map X name tag w).0 ≡ ok s) ↔ (
          (send_query X (wrap_map_read (MapRead.get (MapAddress.seq name tag))) w).0
          ≡ ok (QueryResponse.get_map (Result.ok (Map.seq s)))))
        × (((get_unseq_map X name tag w).0 ≡ ok u) ↔ (
            (send_query X (wrap_map_read (MapRead.get (MapAddress.unseq name tag))) w).0
            ≡ ok (QueryResponse.get_map (Result.ok (Map.unseq u)))))
  unfolding get_seq_map get_unseq_map
  get_map_iff name tag w s u =
      ((λ h. ground arith, λ h. ground arith), (λ h. ground arith, λ h. ground arith))

  -- The same for the value of a key.
  pub get_map_value_iff :
      (name : XorName) (tag : ℕ) (key : Bytes) (w : World T) (s : MapSeqValue) (u : Bytes)
      → (((get_seq_map_value X name tag key w).0 ≡ ok s) ↔ (
          (send_query X (wrap_map_read (MapRead.get_value (MapAddress.seq name tag) key)) w).0
          ≡ ok (QueryResponse.get_map_value (Result.ok (MapValue.seq s)))))
        × (((get_unseq_map_value X name tag key w).0 ≡ ok u) ↔ (
            (send_query X (wrap_map_read (MapRead.get_value (MapAddress.unseq name tag) key)) w).0
            ≡ ok (QueryResponse.get_map_value (Result.ok (MapValue.unseq u)))))
  unfolding get_seq_map_value get_unseq_map_value
  get_map_value_iff name tag key w s u =
      ((λ h. ground arith, λ h. ground arith), (λ h. ground arith, λ h. ground arith))
