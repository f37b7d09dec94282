-- ===== src/Logging/Appenders/Framing.antt =====
-- What a log server reads from the stream of an appender.
use mathlib.Core.List.{append_assoc, append-nil}
use safe_client_libs.Shared.{
  ℕ, zero, suc, ◌<◌, ◌≡◌, refl, sym, ap, ◌∙◌, Bool, false, ◌&&◌, List, [], ◌∷◌, ◌++◌, arith, All,
  nat_beq, if◌then◌else◌,
}
use safe_client_libs.External.Protocol.{Bytes}
use safe_client_libs.Logging.Appenders.{msg_terminator}

-- A reader of the stream: it cuts off a message where the terminator stands. `passed` is the number
-- of bytes of a terminator that are still to be passed over.
abbrev starts_terminator : Bytes → Bool
starts_terminator (a ∷ b ∷ c ∷ _) = nat_beq a 254 && (nat_beq b 253 && nat_beq c 255)
starts_terminator _ = false

abbrev pub frames : ℕ → Bytes → Bytes → List Bytes
frames passed message [] = []
frames (suc passed) message (_ ∷ rest) = frames passed message rest
frames zero message (b ∷ rest) =
    if starts_terminator (b ∷ rest)
    then message ∷ frames 2 [] rest
    else frames 0 (message ++ (b ∷ [])) rest

abbrev pub concat : List Bytes → Bytes
concat [] = []
concat (xs ∷ xss) = xs ++ concat xss

not-starts_terminator : (b : ℕ) (rest : Bytes) → b < 254 → starts_terminator (b ∷ rest) ≡ false
not-starts_terminator b [] h = refl
not-starts_terminator b (_ ∷ []) h = refl
not-starts_terminator b (_ ∷ _ ∷ _) h = ground (arith, h)

frames-message :
    (message text rest : Bytes)
    → All (λ b. b < 248) text
    → frames 0 message (text ++ (msg_terminator ++ rest)) ≡ (message ++ text) ∷ frames 0 [] rest
frames-message message [] rest h = ap (λ m. m ∷ frames 0 [] rest) (sym (append-nil message))
frames-message message (b ∷ text) rest (small, h) =
    rw (not-starts_terminator b (text ++ (msg_terminator ++ rest)) (omega arith)) (
      frames-message (message ++ (b ∷ [])) text rest h
      ∙ ap (λ m. m ∷ frames 0 [] rest) (append_assoc message (b ∷ []) text))

-- The writes of these messages to a stream, each with its terminator.
abbrev pub writes : List Bytes → List Bytes
writes [] = []
writes (m ∷ ms) = m ∷ msg_terminator ∷ writes ms

pub frames-writes :
    (ms : List Bytes) → All (All (λ b. b < 248)) ms → frames 0 [] (concat (writes ms)) ≡ ms
frames-writes [] h = refl
frames-writes (m ∷ ms) (text, h) =
    frames-message [] m (concat (writes ms)) text ∙ ap (λ rest. m ∷ rest) (frames-writes ms h)

pub writes-append : (ms ns : List Bytes) → writes (ms ++ ns) ≡ writes ms ++ writes ns
writes-append [] ns = refl
writes-append (m ∷ ms) ns = ap (λ ws. m ∷ msg_terminator ∷ ws) (writes-append ms ns)
