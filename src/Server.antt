-- ===== src/Server.antt =====
-- internal/auth.go, the incoming handlers of internal/http.go, and requestHandler of
-- cmd/haprovider/main.go: from a client's HTTP request to what is written back.
pub mod Auth
pub mod Reply
pub mod Coalesce
pub mod Handler
pub mod HttpApi
pub mod Dispatch
pub mod Serve
use haprovider.Prelude.{ℕ, Option, Text, Dict}
use haprovider.Rpc.Error.{Error}

-- The parts of an http.Request in use. `header` is Header.Get, with "" for a header that is not
-- there; the body may end in a read error.
pub record Incoming : Type 0 where
  pub id : Text
  pub path : Text
  pub method : Text
  pub raw_query : Text
  pub remote_addr : Text
  pub header : Text → Text
  pub body : Text
  pub broken : Option Error

-- What a handler has done to the ResponseWriter when it returns: nothing, a status with headers and
-- a body, or a call of http.Error with a message.
pub data Answer : Type 0 where
  silent : Answer
  answer : (status : ℕ) (headers : Dict Text) (body : Text) → Answer
  http_error : (status : ℕ) (headers : Dict Text) (message : Text) → Answer
