-- ===== src/Server/Coalesce.antt =====
-- coalesceRequest of internal/http.go. The singleflight group is a parameter: what it makes of a
-- call with a key. Coalesce ids and the shared flag are only logged and counted, and left out.
pub mod Own
pub mod Calls
use haprovider.Prelude.{
  ◌≡◌, Bool, true, false, List, [], ◌∷◌, ◌++◌, Option, none, some, if◌then◌else◌, Text, text, Dict,
}
use haprovider.Prelude.Outcome.{Outcome, done, panicked, ◌>>=◌}
use haprovider.Rpc.Error.{Error, failure}
use haprovider.Rpc.Message.{Request, Response}
use haprovider.Rpc.Json.{Json}
use haprovider.Rpc.Batch.{Result, ok, err}
use haprovider.Core.Endpoint.{Endpoint}
use haprovider.Failover.Visit.{Visit, Forward}
use haprovider.Failover.Loop.{Ended}
use haprovider.Server.{Answer, silent}
use haprovider.Server.Reply.{write_forward_error, write_batch_response}

-- DoChan runs the callback of this call, or hands over what that of another call with the key returned.
pub data Turn : Type 0 where
  leads : Turn
  joins : Result Forward → Turn

-- What a handler does: its answer, and what forwardWithFailover ends with, if it ran to its end.
pub record Handled : Type 0 where
  pub answer : Answer
  pub forwarded : Option Ended

-- The key: the method, a zero byte and the raw params
unfoldable pub coalesce_key : Request → Text
coalesce_key r = r.method ++ 0 ∷ r.params

-- context.WithoutCancel: nothing cancels the call.
unfoldable pub detached : List Visit → List Visit
detached [] = []
detached (v ∷ vs) = record v { cancelled = none } ∷ detached vs

-- What the callback returns; a panic is recovered and made an error.
unfoldable pub recovered : Outcome Ended → Result Forward
unfolding text
recovered (done e) = e.result
recovered panicked = err (failure (text "panic in coalesced request: "))

abbrev pub run_to_end : Outcome Ended → Option Ended
run_to_end (done e) = some e
run_to_end panicked = none

-- shared.res.Responses[0]
unfoldable pub first_response : List Response → Outcome Response
first_response [] = panicked
first_response (r ∷ rs) = done r

module _ (json : Json) where
  -- The shared result with the id of this client's request. A batch of one response is not a batch.
  unfoldable pub deliver : Dict Text → Endpoint → Request → Result Forward → Outcome Answer
  unfolding write_forward_error write_batch_response first_response
  deliver headers e r (err error) = done (write_forward_error json headers error)
  deliver headers e r (ok f) = do
    shared ← first_response f.responses
    done (write_batch_response json headers e f.provider (record shared { id = r.id } ∷ []) false)

  unless_gone : Bool → Outcome Answer → Outcome Answer
  unless_gone true a = done silent
  unless_gone false a = a

  pub take_turn : Dict Text → Endpoint → Request → Outcome Ended → Bool → Turn → Outcome Handled
  unfolding deliver unless_gone recovered
  take_turn headers e r run gone leads =
      unless_gone gone (deliver headers e r (recovered run)) >>= λ a.
      done (record { answer = a; forwarded = run_to_end run })
  take_turn headers e r run gone (joins value) =
      unless_gone gone (deliver headers e r value) >>= λ a.
      done (record { answer = a; forwarded = none })

  -- coalesceRequest: `run` is forwardWithFailover with the detached context, and `gone` says whether
  -- the client's context is done first.
  unfoldable pub coalesce_request :
      Dict Text → Endpoint → Request → Outcome Ended → Bool → (Text → Turn) → Outcome Handled
  unfolding take_turn coalesce_key
  coalesce_request headers e r run gone group =
      take_turn headers e r run gone (group (coalesce_key r))
