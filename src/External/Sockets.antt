-- ===== src/External/Sockets.antt =====
-- The functions of `ws` and of the clock that the web socket of the log uses (`ws`, `std`).
use safe_client_libs.Shared.{ℕ, Bool, String, Option, List}
use safe_client_libs.External.Protocol.{Bytes, Result}

-- What `ws::connect` calls on its handler while it runs its event loop.
pub data LoopEvent (Fault : Type 0) : Type 0 where
  opened : LoopEvent Fault
  errored : Fault → LoopEvent Fault

-- A run of `ws::connect`: the sender that it makes a handler for, the calls on the handler, and what
-- it returns. A loop that has opened a connection may also run on; then what it returns is not
-- looked at.
pub record LoopRun (Sender Fault : Type 0) : Type 0 where
  pub ws_tx : Sender
  pub events : List (LoopEvent Fault)
  pub returned : Result Fault (Unit {0})

-- `spawn` starts a thread that runs `ws::connect`: the outer result is that of the thread's start.
pub record SocketApi (Sender Fault Instant Net : Type 0) : Type 0 where
  pub spawn : String → Option String → Net → Result Fault (LoopRun Sender Fault) × Net
  pub send : Sender → Bytes → Net → Result Fault (Unit {0}) × Net
  pub close : Sender → Net → Result Fault (Unit {0}) × Net
  pub now : Net → Instant × Net
  -- `i - Duration::from_secs(n)`, and `i - j >= Duration::from_secs(n)`
  pub minus_secs : Instant → ℕ → Instant
  pub lasts_secs : Instant → Instant → ℕ → Bool
  -- `ws::Error::new(ws::ErrorKind::Internal, text)`
  pub internal : String → Fault
