-- ===== src/Ws/Pump.antt =====
-- The pumps of internal/ws/ws.go, one message at a time: what each does to the state that it owns,
-- and what it hands to the connections. Logs and Prometheus counters are left out.
pub mod Acts
pub mod Shape
pub mod Pending
pub mod Upstream
pub mod Downstream
use haprovider.Prelude.{
  ℕ, zero, suc, ◌+◌, Bool, true, false, List, [], ◌∷◌, ◌++◌, map, Option, none, some, pos, ltb,
  if◌then◌else◌, is_empty, length, Text, text, decimal, Dict, lookup, insert, delete,
}
use haprovider.Prelude.Outcome.{Outcome, done, panicked, ◌>>=◌, deref}
use haprovider.Rpc.Id.{id_string, format_raw_body}
use haprovider.Rpc.Error.{Error, failure, error_message}
use haprovider.Rpc.Message.{Request, Response, is_error}
use haprovider.Rpc.Json.{Json}
use haprovider.Rpc.Batch.{
  BatchRequest, Result, ok, err, max_batch_size, decode_batch_request, decode_response,
}
use haprovider.Core.Provider.{Provider, mark_unhealthy, mark_method_unsupported}
use haprovider.Chain.{Chain}
use haprovider.Chain.Reject.{reject_disallowed}
use haprovider.Metrics.Labels.{Labels, admit_method}
use haprovider.Failover.Visit.{Meaning, for_client, unsupported, elsewhere, fault, classify}

-- The close codes in use
pub data CloseCode : Type 0 where
  normal_closure going_away unsupported_data service_restart try_again_later : CloseCode

-- What a pump does to the other parts of the proxy: it hands a request to the provider or a response
-- to the client, or closes the proxy or one of its connections.
pub data Act : Type 0 where
  to_provider : Request → Act
  to_client : Response → Act
  close_proxy : Error → Act
  close_client close_provider : CloseCode → Option Error → Act

-- trackPending, for the id as GetID prints it
unfoldable pub track_pending : Dict Text → Text → Text → Dict Text
unfolding insert
track_pending pending id method = if is_empty id then pending else insert id method pending

-- The method of the request that a response answers, "" if none is known, and the requests that still
-- wait.
unfoldable pub settle : Dict Text → Text → Text × Dict Text
unfolding lookup delete
settle pending id =
    if is_empty id
    then ([], pending)
    else (elim (lookup id pending) [ none ↦ [] | some m ↦ m ], delete id pending)

-- What pumpProvider owns or changes
pub record Link : Type 0 where
  pub provider : Provider
  pub pending : Dict Text
  pub labels : Labels

-- After a message from the provider: whether the pump goes on
pub record Heard : Type 0 where
  pub link : Link
  pub acts : List Act
  pub goes_on : Bool

-- The call of a method of ClientConn, which is nil until the client is upgraded
if_client : Bool → Heard → Outcome Heard
if_client true h = done h
if_client false h = panicked

-- What follows the meaning of a response; `taken` is what sendResponse returns.
heard : Bool → Bool → Link → Response → Text → ℕ → Meaning → Outcome Heard
unfolding if_client
heard client_set taken l res method now for_client =
    done (record { link = l; acts = to_client res ∷ []; goes_on = taken })
heard client_set taken l res method now unsupported = done (record {
  link = record l { provider = mark_method_unsupported l.provider method now };
  acts = to_client res ∷ [];
  goes_on = taken;
})
heard client_set taken l res method now elsewhere =
    done (record { link = l; acts = to_client res ∷ []; goes_on = taken })
heard client_set taken l res method now (fault e) = if_client client_set (record {
  link = record l { provider = mark_unhealthy l.provider e now };
  acts =
      to_client res
      ∷ close_proxy e
      ∷ close_client service_restart (some e)
      ∷ close_provider try_again_later none
      ∷ [];
  goes_on = false;
})

-- A message from a client: the count of bad requests in a row, and whether the pump goes on
pub record Asked : Type 0 where
  pub bad_requests : ℕ
  pub acts : List Act
  pub goes_on : Bool

-- One more bad request, which may be one too many
unfoldable pub bad_request : ℕ → Asked
unfolding text
bad_request bad =
    if ltb 10 (bad + 1)
    then record {
      bad_requests = bad + 1;
      acts =
          close_proxy (failure (text "closing client: too many bad requests"))
          ∷ close_client unsupported_data none
          ∷ close_provider going_away none
          ∷ [];
      goes_on = false;
    }
    else record { bad_requests = bad + 1; acts = []; goes_on = true }

-- The loop that breaks up a batch: sendRequest takes `room` requests before it gives up.
send_each : ℕ → List (Option Request) → Outcome Asked
send_each room [] = done (record { bad_requests = 0; acts = []; goes_on = true })
send_each zero (r ∷ rs) = done (record { bad_requests = 0; acts = []; goes_on = false })
send_each (suc room) (r ∷ rs) = do
  req ← deref r
  rest ← send_each room rs
  done (record rest { acts = to_provider req ∷ rest.acts })

module _ (json : Json) where
  bad_data : Error → Text → Error
  unfolding text error_message format_raw_body
  bad_data e message = failure (
      text "received bad data from provider: "
      ++ (error_message e ++ (text ", msg: " ++ format_raw_body message)))

  -- The method of the request that a response answers
  method_of : Link → Response → Text
  unfolding settle id_string
  method_of l res = (settle l.pending (id_string json.string_of res.id)).0

  -- The state with the response settled, and the label of its method admitted if it is no error
  settled : Link → Response → Link
  unfolding settle id_string method_of admit_method is_error
  settled l res = record l {
    pending = (settle l.pending (id_string json.string_of res.id)).1;
    labels = if is_error res then l.labels else admit_method l.labels (method_of l res);
  }

  on_response : Option Chain → Bool → Bool → Link → Response → ℕ → Outcome Heard
  unfolding settled method_of heard classify
  on_response chain client_set taken l res now = classify json chain res >>= λ m.
      heard client_set taken (settled l res) res (method_of l res) now m

  on_decoded : Option Chain → Bool → Bool → Link → Text → ℕ → Result Response → Outcome Heard
  unfolding on_response bad_data if_client
  on_decoded chain client_set taken l message now (err e) = if_client client_set (record {
    link = l;
    acts =
        close_proxy (bad_data e message)
        ∷ close_provider going_away none
        ∷ close_client unsupported_data (some (bad_data e message))
        ∷ [];
    goes_on = false;
  })
  on_decoded chain client_set taken l message now (ok res) =
      on_response chain client_set taken l res now

  -- The case of pumpProvider for a message from the provider
  unfoldable pub provider_message : Option Chain → Bool → Bool → Link → Text → ℕ → Outcome Heard
  unfolding on_decoded decode_response
  provider_message chain client_set taken l message now =
      on_decoded chain client_set taken l message now (decode_response json message)

  -- The case of pumpProvider for a request
  unfoldable pub request_sent : Link → Request → Link
  unfolding track_pending id_string
  request_sent l req = record l {
    pending = track_pending l.pending (id_string json.string_of req.id) req.method;
  }

  answer_rejected : List Response → Asked
  answer_rejected rejected = record {
    bad_requests = 0;
    acts = map to_client rejected;
    goes_on = true;
  }

  unless_rejected : ℕ → BatchRequest → Option (List Response) → Outcome Asked
  unfolding answer_rejected send_each
  unless_rejected room q (some rejected) = done (answer_rejected rejected)
  unless_rejected room q none = send_each room q.requests

  on_batch : Option Chain → ℕ → ℕ → Result BatchRequest → Outcome Asked
  unfolding unless_rejected bad_request reject_disallowed
  on_batch chain room bad (err e) = done (bad_request bad)
  on_batch chain room bad (ok q) =
      if ltb max_batch_size (length q.requests)
      then done (bad_request bad)
      else (reject_disallowed json chain q.requests >>= λ rejected. unless_rejected room q rejected)

  -- The case of pumpClient for a message from the client
  unfoldable pub client_message : Option Chain → ℕ → ℕ → Text → Outcome Asked
  unfolding on_batch decode_batch_request
  client_message chain room bad message =
      decode_batch_request json message >>= λ decoded. on_batch chain room bad decoded
