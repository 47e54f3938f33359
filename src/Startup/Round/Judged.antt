-- ===== src/Startup/Round/Judged.antt =====
-- What a goroutine of the first round knows of its provider and the endpoint at each of its stages
-- (cmd/haprovider/main.go and internal/healthcheck/healthcheck.go).
use haprovider.Prelude.{
  ℕ, ◌≡◌, ◌≢◌, ◌≤◌, ◌⊎◌, inl, inr, refl, sym, ◌∙◌, Bool, true, false, [], ◌∷◌, Option, none, some,
  if◌then◌else◌, Text, text_eq_iff, arith,
}
use haprovider.Rpc.Error.{Error}
use haprovider.Rpc.Batch.{Result, ok, err}
use haprovider.Core.Endpoint.{Endpoint, set_chain_id, observe_block}
use haprovider.Core.NodeInfo.{NodeInfo}
use haprovider.Chain.{Chain}
use haprovider.Startup.Round.{
  Stage, Check, Shared, launched, counted, checking, naming, comparing, observing, passed,
  counted_online, healthy, failed, leaving, finished, put, to_stage, on_node, ask, on_named,
  compare, on_stage, move,
}
use haprovider.Startup.Round.Kept.{IsLater, move-IsLater}

-- The chain id that a node reports is that of the endpoint, or empty.
abbrev pub Agrees : Endpoint → Text → Type 0
Agrees e c = (c ≡ []) ⊎ ((e.chain_id ≢ []) × (c ≡ e.chain_id))

-- A node has answered, agrees with the endpoint, and the tip is not below its height.
pub record IsSound (e : Endpoint) (node : Result NodeInfo) : Type 0 where
  pub info : NodeInfo
  pub answered : node ≡ ok info
  pub agrees : Agrees e info.chain_id
  pub height : info.block_height ≤ e.highest_block

unfoldable pub Knows : Endpoint → Result NodeInfo → Bool → Stage → Type 0
Knows e node online launched = Unit
Knows e node online (counted n) = Unit
Knows e node online checking = Unit
Knows e node online (naming info) = node ≡ ok info
Knows e node online (comparing info) = (node ≡ ok info) × Agrees e info.chain_id
Knows e node online (observing info) = (node ≡ ok info) × Agrees e info.chain_id
Knows e node online passed = IsSound e node
Knows e node online (counted_online n) = IsSound e node
Knows e node online healthy = IsSound e node
Knows e node online (failed error) = Unit
Knows e node online leaving = online ≡ true → IsSound e node
Knows e node online finished = online ≡ true → IsSound e node

abbrev pub IsJudged : Shared → Check → Type 0
IsJudged s c = Knows (s.endpoint c.home) c.node c.provider.online c.stage

Agrees-later : {e e' : Endpoint} (c : Text) → IsLater e e' → Agrees e c → Agrees e' c
Agrees-later c l (inl empty) = inl empty
Agrees-later c l (inr (filled, same)) =
    inr (λ k. filled (sym (l.named filled) ∙ k), same ∙ sym (l.named filled))

IsSound-later :
    {e e' : Endpoint} {node : Result NodeInfo} → IsLater e e' → IsSound e node → IsSound e' node
IsSound-later l v = record {
  info = v.info;
  answered = v.answered;
  agrees = Agrees-later v.info.chain_id l v.agrees;
  height = omega (arith, l.tip, v.height);
}

Knows-later :
    {e e' : Endpoint} (l : IsLater e e') (node : Result NodeInfo) (online : Bool) (stage : Stage)
    → Knows e node online stage
    → Knows e' node online stage
unfolding Knows
Knows-later l node online launched k = tt
Knows-later l node online (counted n) k = tt
Knows-later l node online checking k = tt
Knows-later l node online (naming info) k = k
Knows-later l node online (comparing info) k = (k.0, Agrees-later info.chain_id l k.1)
Knows-later l node online (observing info) k = (k.0, Agrees-later info.chain_id l k.1)
Knows-later l node online passed k = IsSound-later l k
Knows-later l node online (counted_online n) k = IsSound-later l k
Knows-later l node online healthy k = IsSound-later l k
Knows-later l node online (failed error) k = tt
Knows-later l node online leaving k = λ h. IsSound-later l (k h)
Knows-later l node online finished k = λ h. IsSound-later l (k h)

pub IsJudged-other : (s : Shared) (c d : Check) → IsJudged s c → IsJudged (move s d).0 c
IsJudged-other s c d k = Knows-later (move-IsLater s d c.home) c.node c.provider.online c.stage k

set_chain_id-Agrees :
    (e : Endpoint) (c : Text) → (set_chain_id e c).1 ≡ none → Agrees (set_chain_id e c).0 c
unfolding set_chain_id
set_chain_id-Agrees e [] h = inl refl
set_chain_id-Agrees e (c ∷ cs) h = inr (
  λ k. ground (arith, text_eq_iff e.chain_id (c ∷ cs)),
  ground (arith, text_eq_iff e.chain_id (c ∷ cs)),
)

pub put-same : (home : ℕ) (e : Endpoint) (endpoints : ℕ → Endpoint) → put home e endpoints home ≡ e
unfolding put
put-same home e endpoints = ground arith

on_named-IsJudged :
    (s : Shared) (c : Check) (info : NodeInfo) (r : Endpoint × Option Error)
    → c.node ≡ ok info
    → (r.1 ≡ none → Agrees r.0 info.chain_id)
    → IsJudged (on_named s c info r).0 (on_named s c info r).1
unfolding on_named Knows to_stage
on_named-IsJudged s c info (e, some error) h k = tt
on_named-IsJudged s c info (e, none) h k = (h, rw (put-same c.home e s.endpoint) (k refl))

on_node-IsJudged :
    (s : Shared) (c : Check) (r : Result NodeInfo) → c.node ≡ r → IsJudged s (on_node c r)
unfolding on_node Knows to_stage
on_node-IsJudged s c (err error) h = tt
on_node-IsJudged s c (ok info) h = h

ask-IsJudged :
    (s : Shared) (c : Check) (o : Option Chain) → IsJudged s (ask c (s.endpoint c.home) o)
unfolding ask Knows to_stage
ask-IsJudged s c none = tt
ask-IsJudged s c (some chain) = on_node-IsJudged s c c.node refl

Knows-compared :
    (e : Endpoint) (node : Result NodeInfo) (online behind : Bool) (error : Error) (info : NodeInfo)
    → (node ≡ ok info) × Agrees e info.chain_id
    → Knows e node online (if behind then failed error else observing info)
unfolding Knows
Knows-compared e node online true error info k = tt
Knows-compared e node online false error info k = k

compare-IsJudged :
    (s : Shared) (c : Check) (info : NodeInfo)
    → (c.node ≡ ok info) × Agrees (s.endpoint c.home) info.chain_id
    → IsJudged s (compare c (s.endpoint c.home) info)
unfolding compare
compare-IsJudged s c info k = Knows-compared (s.endpoint c.home) c.node _ _ _ info k

observed-IsSound :
    (e : Endpoint) (node : Result NodeInfo) (info : NodeInfo)
    → (node ≡ ok info) × Agrees e info.chain_id
    → IsSound (observe_block e info.block_height) node
unfolding observe_block
observed-IsSound e node info k = record {
  info = info;
  answered = k.0;
  agrees = ground arith;
  height = ground arith;
}

on_stage-IsJudged :
    (s : Shared) (c : Check) (stage : Stage)
    → c.stage ≡ stage
    → Knows (s.endpoint c.home) c.node c.provider.online stage
    → IsJudged (on_stage s c stage).0 (on_stage s c stage).1
unfolding on_stage Knows to_stage
on_stage-IsJudged s c launched at k = tt
on_stage-IsJudged s c (counted n) at k = tt
on_stage-IsJudged s c checking at k = ask-IsJudged s c _
on_stage-IsJudged s c (naming info) at k =
    on_named-IsJudged s c info _ k (set_chain_id-Agrees (s.endpoint c.home) info.chain_id)
on_stage-IsJudged s c (comparing info) at k = compare-IsJudged s c info k
on_stage-IsJudged s c (observing info) at k =
    rw (put-same c.home (observe_block (s.endpoint c.home) info.block_height) s.endpoint)
      (observed-IsSound (s.endpoint c.home) c.node info k)
on_stage-IsJudged s c passed at k = k
on_stage-IsJudged s c (counted_online n) at k = k
on_stage-IsJudged s c healthy at k = λ h. k
on_stage-IsJudged s c (failed error) at k = λ h. ground arith
on_stage-IsJudged s c leaving at k = k
on_stage-IsJudged s c finished at k = rw at k

pub IsJudged-own : (s : Shared) (c : Check) → IsJudged s c → IsJudged (move s c).0 (move s c).1
unfolding move
IsJudged-own s c k = on_stage-IsJudged s c c.stage refl k
