-- ===== src/Connection/Link.antt =====
-- What the connection manager holds, what its calls change, and the tasks that it spawns.
use safe_client_libs.Shared.{Option, none, some, List, [], ◌∷◌, ◌++◌, if◌then◌else◌}
use safe_client_libs.External.Types.{Types}
use safe_client_libs.External.Protocol.{Bytes, XorName}
use safe_client_libs.External.Api.{NetApi}
use safe_client_libs.Exec.{Exec, Exit, ok}

-- `ConnectionManager`
pub record ConnectionManager (T : Types) : Type 0 where
  pub full_id : T.FullId
  pub quic_p2p : T.QuicP2p
  pub elders : List T.Connection

-- What lies outside, the source of random names, and what the tasks for the elders have sent: the
-- connection and the bytes of each task that has run, in order.
pub record Link (T : Types) : Type 0 where
  pub net : T.Net
  pub rng : T.Rng
  pub trace : List (T.Connection × Bytes)

module _ {T : Types} (X : NetApi T) where
  -- A call on the network, as an action that never fails: it gives the call's result.
  abbrev pub on_net : {A : Type 0} → (T.Net → A × T.Net) → Exec T (Link T) A
  on_net f l = (ok (f l.net).0, record l { net = (f l.net).1 })

  -- `XorName::random`
  abbrev pub random_name : Link T → Exit T XorName × Link T
  random_name l = let (name, rng) = X.random_name l.rng in (ok name, record l { rng = rng })

  -- Tasks that run to their ends in this order. A result that the executor does not hand over is
  -- `none`.
  unfoldable pub run_tasks :
      {A B : Type 0} → (A → T.Net → B × T.Net) → List A → T.Net → List (Option B) × T.Net
  run_tasks task [] net = ([], net)
  run_tasks task (a ∷ rest) net =
      let (b, net₁) = task a net in
      let (handed_over, net₂) = X.joined net₁ in
      let (results, net₃) = run_tasks task rest net₂ in
      ((if handed_over then some b else none) ∷ results, net₃)

  -- Tasks that each send these bytes over one connection, by `send` or by `send_only`.
  unfoldable pub send_each :
      {B : Type 0}
      → (T.Connection → Bytes → T.Net → B × T.Net)
      → Bytes
      → List T.Connection
      → Link T
      → List (Option B) × Link T
  send_each send bytes [] l = ([], l)
  send_each send bytes (conn ∷ rest) l =
      let (b, net₁) = send conn bytes l.net in
      let (handed_over, net₂) = X.joined net₁ in
      let (results, l') =
        send_each send bytes rest
          (record l { net = net₂; trace = l.trace ++ ((conn, bytes) ∷ []) }) in
      ((if handed_over then some b else none) ∷ results, l')

  -- One such task for every elder.
  abbrev pub send_all :
      {B : Type 0}
      → (T.Connection → Bytes → T.Net → B × T.Net)
      → Bytes
      → List T.Connection
      → Exec T (Link T) (List (Option B))
  send_all send bytes elders l =
      let (results, l') = send_each send bytes (X.elders_order l.net elders) l in (ok results, l')
