-- ===== src/Healthcheck/Stall.antt =====
-- A node that has stopped advancing is found out (internal/healthcheck/healthcheck.go).
use haprovider.Prelude.{
  ℕ, ◌+◌, ◌^◌, ◌≡◌, ◌≢◌, ◌≤◌, ◌<◌, refl, ◌∙◌, List, [], ◌∷◌, none, some, arith,
}
use haprovider.Rpc.Batch.{Result, ok, err}
use haprovider.Core.Provider.{Provider}
use haprovider.Core.NodeInfo.{NodeInfo}
use haprovider.Core.Endpoint.{Endpoint, set_chain_id, observe_block}
use haprovider.Chain.{Chain, new}
use haprovider.Healthcheck.{block_lag_tolerance, run}
use haprovider.Healthcheck.Tip.{run-IsGood, run-tip}

-- The checks of the providers of one endpoint, in the order in which they finish.
pub record Check : Type 0 where
  pub provider : Provider
  pub now : ℕ
  pub node : Result NodeInfo

pub checks : Endpoint → List Check → Endpoint
checks e [] = e
checks e (k ∷ ks) = checks (run k.provider e k.now k.node).1 ks

-- What a check leaves alone, and that the tip does not fall.
run-Keeps :
    (p : Provider) (e : Endpoint) (now : ℕ) (node : Result NodeInfo)
    → let f = (run p e now node).1 in
      (f.kind ≡ e.kind)
      × (f.block_lag_tolerance ≡ e.block_lag_tolerance)
      × (e.highest_block ≤ f.highest_block)
unfolding run set_chain_id observe_block
run-Keeps p e now (err error) = ground arith
run-Keeps p e now (ok info) = ground arith

-- What stays of an endpoint under checks.
record Later (e f : Endpoint) : Type 0 where
  kind : f.kind ≡ e.kind
  tolerance : block_lag_tolerance f ≡ block_lag_tolerance e
  tip : e.highest_block ≤ f.highest_block

block_lag_tolerance-eq :
    (e f : Endpoint)
    → f.kind ≡ e.kind
    → f.block_lag_tolerance ≡ e.block_lag_tolerance
    → block_lag_tolerance f ≡ block_lag_tolerance e
unfolding block_lag_tolerance
block_lag_tolerance-eq e f k t = rw (k, t) refl

run-Later : (k : Check) (e : Endpoint) → Later e (run k.provider e k.now k.node).1
run-Later k e =
    let (kind, tolerance, tip) = run-Keeps k.provider e k.now k.node in
    record { kind = kind; tolerance = block_lag_tolerance-eq e _ kind tolerance; tip = tip }

Later-trans : {e f g : Endpoint} → Later e f → Later f g → Later e g
Later-trans a b = record {
  kind = b.kind ∙ a.kind;
  tolerance = b.tolerance ∙ a.tolerance;
  tip = omega arith;
}

checks-Later : (e : Endpoint) (ks : List Check) → Later e (checks e ks)
unfolding checks
checks-Later e [] = record { kind = refl; tolerance = refl; tip = omega arith }
checks-Later e (k ∷ ks) =
    Later-trans (run-Later k e) (checks-Later (run k.provider e k.now k.node).1 ks)

-- Once some provider has passed its check at a height further ahead than the tolerance, a node that
-- still reports the lower height fails its check, whatever checks came between the two.
pub stalled-fails :
    (e : Endpoint) (p q : Provider) (t later : ℕ) (ahead stalled : NodeInfo) (between : List Check)
    {c : Chain}
    → new e.kind ≡ some c
    → ahead.block_height < 2 ^ 64
    → stalled.block_height + block_lag_tolerance e < ahead.block_height
    → (run p e t (ok ahead)).2 ≡ none
    → (run q (checks (run p e t (ok ahead)).1 between) later (ok stalled)).2 ≢ none
stalled-fails e p q t later ahead stalled between {c} known small lag passed fine =
    let f = (run p e t (ok ahead)).1 in
    let g = checks f between in
    let last = checks-Later f between in
    let all = Later-trans (run-Later (record { provider = p; now = t; node = ok ahead }) e) last in
    let known' : new g.kind ≡ some c = rw all.kind known in
    let short : stalled.block_height + block_lag_tolerance g < 2 ^ 64 =
      omega (arith, all.tolerance) in
    let good = (run-IsGood q g later stalled known' short).0 fine in
    absurd (ground (arith, run-tip p e t ahead known, all.tolerance, last.tip, good.in_time))
