-- ===== src/Logging/Requests.antt =====
-- The request that opens a web socket, and how a server checks it
-- (src/utils/logging/web_socket.rs).
use safe_client_libs.Shared.{
  Bool, true, false, String, Option, none, some, [], ◌∷◌, nat_beq, if◌then◌else◌,
}
use safe_client_libs.External.Protocol.{Bytes, Result}

abbrev same_bytes : Bytes → Bytes → Bool
same_bytes [] [] = true
same_bytes [] (_ ∷ _) = false
same_bytes (_ ∷ _) [] = false
same_bytes (a ∷ xs) (b ∷ ys) = let rest = same_bytes xs ys in if nat_beq a b then rest else false

-- The request that opens a connection, and the check of it by a server. `from_url`, `header` and
-- `from_request` belong to `ws`, and a text is its bytes.
module _ {Fault Request : Type 0} where
  abbrev pub with_header :
      (Request → String → Bytes → Request)
      → Option Bytes
      → Result Fault Request
      → Result Fault Request
  with_header push session_id (Result.err e) = Result.err e
  with_header push (some session_id) (Result.ok req) = Result.ok (push req "SessionId" session_id)
  with_header push none (Result.ok req) = Result.ok req

  unfoldable pub build_request :
      (String → Result Fault Request)
      → (Request → String → Bytes → Request)
      → Option Bytes
      → String
      → Result Fault Request
  build_request from_url push session_id url = with_header push session_id (from_url url)

module _ {Fault Response : Type 0} (internal : String → Fault) where
  abbrev pub answer_to : Option Bytes → Option Bytes → Result Fault Response → Result Fault Response
  answer_to (some expected) (some observed) response =
      if same_bytes observed expected then response else Result.err (internal "Invalid SessionId")
  answer_to (some expected) none response = Result.err (internal "Invalid SessionId")
  answer_to none observed response = response

  unfoldable pub validate_request :
      {Request : Type 0}
      → (Request → String → Option Bytes)
      → (Request → Result Fault Response)
      → Request
      → Option Bytes
      → Result Fault Response
  validate_request header from_request req expected_id =
      answer_to expected_id (header req "SessionId") (from_request req)
