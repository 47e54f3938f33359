-- ===== src/Startup/Round.antt =====
-- The first round of health checks in main of cmd/haprovider/main.go, as its goroutines run it: one for
-- each provider, between `wg.Add(1)` and `wg.Wait()`. Each access to state that they share is a step:
-- the reads and the writes of `total` and `online`, which no lock guards, the calls of SetChainID,
-- HighestBlock and ObserveBlock in healthcheck.Run (internal/healthcheck/healthcheck.go), and wg.Done.
pub mod Kept
pub mod Judged
pub mod Inside
pub mod Moves
pub mod Waited
pub mod Ended
pub mod Tally
pub mod Counters
pub mod Counted
pub mod Lost
pub mod Alone
use haprovider.Prelude.{
  ℕ, zero, suc, ◌+◌, ◌-◌, Bool, true, false, List, [], ◌∷◌, ◌++◌, Option, none, some, ltb, ◌==◌,
  if◌then◌else◌, is_empty, text,
}
use haprovider.Rpc.Error.{Error, failure}
use haprovider.Rpc.Batch.{Result, ok, err}
use haprovider.Core.Provider.{
  Provider, mark_healthy, mark_unhealthy, set_highest_block, set_client_version,
}
use haprovider.Core.NodeInfo.{NodeInfo}
use haprovider.Core.Endpoint.{Endpoint, set_chain_id, observe_block}
use haprovider.Chain.{Chain, new}
use haprovider.Healthcheck.{kind_text, is_behind, behind_error, block_lag_tolerance}

-- What a goroutine does next
pub data Stage : Type 0 where
  -- read `total`, write one more
  launched : Stage
  counted : ℕ → Stage
  -- ask the node; SetChainID; compare with the tip; ObserveBlock
  checking : Stage
  naming comparing observing : NodeInfo → Stage
  -- read `online`, write one more
  passed : Stage
  counted_online : ℕ → Stage
  -- MarkHealthy, MarkUnhealthy
  healthy : Stage
  failed : Error → Stage
  -- wg.Done
  leaving : Stage
  finished : Stage

-- A goroutine with its provider, the number of its endpoint, what the chain's Healthcheck returns for
-- it, and what the clock reads in it
pub record Check : Type 0 where
  pub provider : Provider
  pub home : ℕ
  pub node : Result NodeInfo
  pub now : ℕ
  pub stage : Stage

-- What the goroutines share: the counters, the count of the wait group, the endpoints by number
pub record Shared : Type 0 where
  pub total : ℕ
  pub online : ℕ
  pub waiting : ℕ
  pub endpoint : ℕ → Endpoint

unfoldable pub put : ℕ → Endpoint → (ℕ → Endpoint) → ℕ → Endpoint
put home e endpoints i = if i == home then e else endpoints i

unfoldable pub to_stage : Check → Stage → Check
to_stage c stage = record c { stage = stage }

-- Run, up to SetClientVersion
unfoldable pub on_node : Check → Result NodeInfo → Check
on_node c (err error) = to_stage c (failed error)
on_node c (ok info) = record c {
  provider = set_client_version c.provider info.client_version c.now;
  stage = naming info;
}

unfoldable pub ask : Check → Endpoint → Option Chain → Check
unfolding on_node to_stage kind_text text
ask c e none = to_stage c (failed (failure (text "unknown endpoint kind: " ++ kind_text e.kind)))
ask c e (some chain) = on_node c c.node

unfoldable pub on_named : Shared → Check → NodeInfo → Endpoint × Option Error → Shared × Check
unfolding put to_stage
on_named s c info (e, some error) =
    (record s { endpoint = put c.home e s.endpoint }, to_stage c (failed error))
on_named s c info (e, none) =
    (record s { endpoint = put c.home e s.endpoint }, to_stage c (comparing info))

-- The provider's own height, and the tip that HighestBlock reads
unfoldable pub compare : Check → Endpoint → NodeInfo → Check
unfolding is_behind behind_error block_lag_tolerance
compare c e info = record c {
  provider =
      if ltb c.provider.highest_block info.block_height
      then set_highest_block c.provider info.block_height
      else c.provider;
  stage =
      if is_behind info.block_height (block_lag_tolerance e) e.highest_block
      then failed (behind_error info.block_height e.highest_block)
      else observing info;
}

-- The next step of a goroutine
unfoldable pub on_stage : Shared → Check → Stage → Shared × Check
unfolding put to_stage ask on_named compare set_chain_id observe_block mark_healthy mark_unhealthy
on_stage s c launched = (s, to_stage c (counted s.total))
on_stage s c (counted n) = (record s { total = n + 1 }, to_stage c checking)
on_stage s c checking = (s, ask c (s.endpoint c.home) (new (s.endpoint c.home).kind))
on_stage s c (naming info) = on_named s c info (set_chain_id (s.endpoint c.home) info.chain_id)
on_stage s c (comparing info) = (s, compare c (s.endpoint c.home) info)
on_stage s c (observing info) = (
  record s {
    endpoint = put c.home (observe_block (s.endpoint c.home) info.block_height) s.endpoint;
  },
  to_stage c passed,
)
on_stage s c passed = (s, to_stage c (counted_online s.online))
on_stage s c (counted_online n) = (record s { online = n + 1 }, to_stage c healthy)
on_stage s c healthy = (s, record c { provider = mark_healthy c.provider c.now; stage = leaving })
on_stage s c (failed error) =
    (s, record c { provider = mark_unhealthy c.provider error c.now; stage = leaving })
on_stage s c leaving = (record s { waiting = s.waiting - 1 }, to_stage c finished)
on_stage s c finished = (s, c)

unfoldable pub move : Shared → Check → Shared × Check
unfolding on_stage
move s c = on_stage s c c.stage

-- The step of the goroutine at a position; there is none past the end.
unfoldable pub step : ℕ → Shared → List Check → Shared × List Check
unfolding move
step i s [] = (s, [])
step zero s (c ∷ cs) = let (s', c') = move s c in (s', c' ∷ cs)
step (suc i) s (c ∷ cs) = let (s', cs') = step i s cs in (s', c ∷ cs')

-- main between the loops: the goroutines that it has not started yet, those that it has, the latest
-- first, and whether wg.Wait has returned
pub record Round : Type 0 where
  pub shared : Shared
  pub pending : List Check
  pub running : List Check
  pub waited : Bool

pub data Turn : Type 0 where
  main : Turn
  goroutine : ℕ → Turn

main_step : Round → List Check → Round
unfolding to_stage
main_step r [] = if r.shared.waiting == 0 then record r { waited = true } else r
main_step r (c ∷ cs) = record r {
  shared = record r.shared { waiting = r.shared.waiting + 1 };
  pending = cs;
  running = to_stage c launched ∷ r.running;
}

unfoldable pub take_turn : Turn → Round → Round
unfolding main_step step
take_turn main r = main_step r r.pending
take_turn (goroutine i) r =
    let (s, cs) = step i r.shared r.running in record r { shared = s; running = cs }

unfoldable pub play : List Turn → Round → Round
unfolding take_turn
play [] r = r
play (t ∷ ts) r = play ts (take_turn t r)

-- Where main stands before the loop
unfoldable pub first_round : (ℕ → Endpoint) → List Check → Round
first_round endpoints checks = record {
  shared = record { total = 0; online = 0; waiting = 0; endpoint = endpoints };
  pending = checks;
  running = [];
  waited = false;
}
