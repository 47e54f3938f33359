-- ===== src/Server/Serve.antt =====
-- A client's request from requestHandler (cmd/haprovider/main.go) to the end of the handler that it
-- is dispatched to (internal/http.go, internal/ws/ws.go).
pub mod Cleared
use haprovider.Prelude.{List, Option, ℤ, Text, Dict}
use haprovider.Prelude.Outcome.{Outcome, done, ◌>>=◌}
use haprovider.Rpc.Json.{Json}
use haprovider.Metrics.Labels.{Labels}
use haprovider.Server.{Incoming, Answer}
use haprovider.Server.Coalesce.{Handled}
use haprovider.Server.Handler.{World, incoming_rpc}
use haprovider.Server.HttpApi.Loop.{Setup, ApiVisit, Passed, incoming_http_api}
use haprovider.Server.Dispatch.{Site, Route, answered, to_http_api, to_websocket, to_rpc, route}
use haprovider.Ws.Tracker.{Tracker}
use haprovider.Ws.Dial.{Attempt, Dialled, dial_any}
use haprovider.Ws.Handler.{Setting, Ran, incoming_websocket}

-- What the handlers meet at a site, each for its own transport
pub record Around : Type 0 where
  pub rpc : Site → World
  pub api : Site → List ApiVisit
  pub labels : Labels
  pub attempts : Site → List Attempt
  pub setting : Setting
  pub tracker : Tracker

-- What has become of a request; `none` is a WebSocket that is still open.
pub data Served : Type 0 where
  turned_away : Answer → Served
  by_rpc : Site → Handled → Served
  by_http_api : Site → Answer → Option Passed → Served
  by_websocket : Site → Dialled → Option Ran → Served

module _ (json : Json) (setup : Setup) (i : Incoming) (a : Around) where
  dispatched : Route → Outcome Served
  unfolding incoming_rpc incoming_http_api incoming_websocket dial_any
  dispatched (answered reply) = done (turned_away reply)
  dispatched (to_http_api s headers) =
      let p = incoming_http_api setup s.endpoint headers i (a.api s) a.labels in
      done (by_http_api s p.answer p.passed)
  dispatched (to_websocket s headers) =
      let d = dial_any setup.show (a.attempts s) in
      incoming_websocket json headers a.setting a.tracker d.result >>= λ ran.
      done (by_websocket s d ran)
  dispatched (to_rpc s headers) =
      incoming_rpc json setup.show s.endpoint headers (a.rpc s) i >>= λ h. done (by_rpc s h)

  -- requestHandler with the handler that it calls
  unfoldable pub serve : Dict Site → Text → Outcome Served
  unfolding dispatched route
  serve sites version = dispatched (route sites version i)
