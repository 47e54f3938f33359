-- ===== src/Examples/Starts.antt =====
-- A program that starts with two providers.
use haprovider.Prelude.{
  ℕ, zero, suc, ◌≡◌, refl, true, List, [], ◌∷◌, ◌++◌, map, All, length, text, arith,
}
use haprovider.Rpc.Error.{failure}
use haprovider.Rpc.Batch.{Result, ok, err}
use haprovider.Core.Endpoint.{Endpoint, Kind, fresh_endpoint}
use haprovider.Core.NodeInfo.{NodeInfo}
use haprovider.Chain.{new}
use haprovider.Healthcheck.{run_once}
use haprovider.Startup.Round.{
  Check, Shared, to_stage, launched, Turn, main, goroutine, play, first_round,
}
use haprovider.Startup.Round.Moves.{subject}
use haprovider.Startup.Round.Waited.{in_turn, IsDone, play-IsDone}
use haprovider.Startup.Round.Counted.{IsReport, play-IsReport}
use haprovider.Startup.Round.Lost.{CountsOne, play-CountsOne}
use haprovider.Startup.Round.Alone.{EndsWith, launched-EndsWith}
use haprovider.Examples.Failovers.{up}

abbrev mainnet : ℕ → Endpoint
mainnet i = fresh_endpoint (text "eth") Kind.eth

abbrev check_of : Result NodeInfo → Check
check_of node = record {
  provider = up (text "p");
  home = 0;
  node = node;
  now = 5;
  stage = launched;
}

abbrev two_checks : List Check
two_checks =
    check_of (ok (record { client_version = []; chain_id = text "1"; block_height = 9 }))
    ∷ check_of (err (failure (text "down")))
    ∷ []

abbrev times : ℕ → List Turn → List Turn
times zero ts = []
times (suc n) ts = ts ++ times n ts

-- Both goroutines read `total` before one writes it.
abbrev turns : List Turn
turns = main ∷ main ∷ (times 12 (goroutine 0 ∷ goroutine 1 ∷ []) ++ (main ∷ []))

both_done : (play turns (first_round mainnet two_checks)).waited ≡ true
unfolding play first_round new
both_done = refl

play-IsDone_example :
    let r = play turns (first_round mainnet two_checks) in
    (map subject r.running ≡ in_turn (map subject two_checks) []) × All (IsDone r.shared) r.running
play-IsDone_example = play-IsDone mainnet two_checks turns both_done

play-IsReport_example : IsReport (length two_checks) (play turns (first_round mainnet two_checks))
play-IsReport_example = play-IsReport mainnet two_checks turns both_done

play-CountsOne_example : CountsOne (first_round mainnet two_checks)
play-CountsOne_example = play-CountsOne mainnet two_checks (omega arith)

abbrev begin : Shared
begin = record { total = 0; online = 0; waiting = 1; endpoint = mainnet }

abbrev answered : Result NodeInfo
answered = ok (record { client_version = []; chain_id = text "1"; block_height = 9 })

launched-EndsWith_example :
    let c = check_of answered in
    let r = run_once (up (text "p")) (mainnet 0) 30 5 answered in
    EndsWith 0 (begin, to_stage c launched) r.0 r.1
launched-EndsWith_example = launched-EndsWith begin (check_of answered) 30
