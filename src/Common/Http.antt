-- ===== src/Common/Http.antt =====
-- What Go's net/http gives to a client.
use Prim.Native.Nat.{ℕ}
use corenet.Common.Bytes.{Text}

-- The parts of a response that the clients read: its code, its status line and its body.
pub record HttpReply : Type 0 where
  pub code : ℕ
  pub status : Text
  pub body : Text

-- What a request gives: an error, of making or sending it, or a response.
pub data HttpAnswer : Type 0 where
  no_answer : Text → HttpAnswer
  replied : HttpReply → HttpAnswer
