-- ===== src/Examples/Connections.antt =====
-- WebSocket connections and a shutdown, and method labels.
use haprovider.Prelude.{◌≤◌, true, false, [], ◌∷◌, map, length, text, pos, arith}
use haprovider.Metrics.Labels.{no_labels, max_method_labels}
use haprovider.Metrics.Labels.Interleaving.{start, interleave, interleave-bounded}
use haprovider.Ws.Tracker.{new_tracker}
use haprovider.Ws.Tracker.Shutdown.{opened, closed, shut_down, System, Inv, EndsIn, life, life-Inv}

life-Inv_example : EndsIn Inv (life (new_tracker, 0) (opened ∷ shut_down ∷ closed ∷ []))
life-Inv_example = life-Inv (opened ∷ shut_down ∷ closed ∷ [])

-- Two connections are open, and the shutdown has begun.
abbrev closing : System
closing = (record { closing = true; n = pos 2; shutdown = true; idle = false }, 2)

closing-Inv : Inv closing
closing-Inv = ground arith

interleave-bounded_example :
    length
      (interleave
        (0 ∷ 1 ∷ 1 ∷ 0 ∷ 1 ∷ 0 ∷ [])
        no_labels
        (map start (text "eth_call" ∷ text "eth_call" ∷ []))).0.admitted
    ≤ max_method_labels
interleave-bounded_example =
    interleave-bounded (0 ∷ 1 ∷ 1 ∷ 0 ∷ 1 ∷ 0 ∷ []) (text "eth_call" ∷ text "eth_call" ∷ [])
