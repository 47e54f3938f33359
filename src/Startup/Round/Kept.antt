-- ===== src/Startup/Round/Kept.antt =====
-- What later steps of the first round of health checks keep of the endpoints (cmd/haprovider/main.go).
use haprovider.Prelude.{
  ℕ, zero, suc, ◌≡◌, ◌≢◌, ◌≤◌, refl, List, [], ◌∷◌, Option, none, some, All, Text, arith,
}
use haprovider.Rpc.Error.{Error}
use haprovider.Core.Endpoint.{Endpoint, set_chain_id, observe_block}
use haprovider.Core.NodeInfo.{NodeInfo}
use haprovider.Startup.Round.{
  Stage, Check, Shared, launched, counted, checking, naming, comparing, observing, passed,
  counted_online, healthy, failed, leaving, finished, put, on_named, on_stage, move, step,
}

-- An endpoint at a later time: a chain id stays once it is set, and the tip does not fall.
pub record IsLater (e e' : Endpoint) : Type 0 where
  pub named : e.chain_id ≢ [] → e'.chain_id ≡ e.chain_id
  pub tip : e.highest_block ≤ e'.highest_block

pub IsLater-refl : (e : Endpoint) → IsLater e e
IsLater-refl e = record { named = λ h. refl; tip = omega arith }

set_chain_id-IsLater : (e : Endpoint) (c : Text) → IsLater e (set_chain_id e c).0
unfolding set_chain_id
set_chain_id-IsLater e c = record { named = λ h. ground arith; tip = ground arith }

observe_block-IsLater : (e : Endpoint) (h : ℕ) → IsLater e (observe_block e h)
unfolding observe_block
observe_block-IsLater e h = record { named = λ n. ground arith; tip = ground arith }

put-IsLater :
    (home : ℕ) (e : Endpoint) (endpoints : ℕ → Endpoint)
    → IsLater (endpoints home) e
    → (i : ℕ) → IsLater (endpoints i) (put home e endpoints i)
unfolding put
put-IsLater home e endpoints l i = ground (arith, IsLater-refl (endpoints i))

on_named-IsLater :
    (s : Shared) (c : Check) (info : NodeInfo) (r : Endpoint × Option Error)
    → IsLater (s.endpoint c.home) r.0
    → (i : ℕ) → IsLater (s.endpoint i) ((on_named s c info r).0.endpoint i)
unfolding on_named
on_named-IsLater s c info (e, some error) l i = put-IsLater c.home e s.endpoint l i
on_named-IsLater s c info (e, none) l i = put-IsLater c.home e s.endpoint l i

on_stage-IsLater :
    (s : Shared) (c : Check) (stage : Stage) (i : ℕ)
    → IsLater (s.endpoint i) ((on_stage s c stage).0.endpoint i)
unfolding on_stage
on_stage-IsLater s c launched i = IsLater-refl _
on_stage-IsLater s c (counted n) i = IsLater-refl _
on_stage-IsLater s c checking i = IsLater-refl _
on_stage-IsLater s c (naming info) i =
    on_named-IsLater s c info _ (set_chain_id-IsLater (s.endpoint c.home) info.chain_id) i
on_stage-IsLater s c (comparing info) i = IsLater-refl _
on_stage-IsLater s c (observing info) i =
    put-IsLater c.home _ s.endpoint (observe_block-IsLater (s.endpoint c.home) info.block_height) i
on_stage-IsLater s c passed i = IsLater-refl _
on_stage-IsLater s c (counted_online n) i = IsLater-refl _
on_stage-IsLater s c healthy i = IsLater-refl _
on_stage-IsLater s c (failed error) i = IsLater-refl _
on_stage-IsLater s c leaving i = IsLater-refl _
on_stage-IsLater s c finished i = IsLater-refl _

pub move-IsLater :
    (s : Shared) (c : Check) (i : ℕ) → IsLater (s.endpoint i) ((move s c).0.endpoint i)
unfolding move
move-IsLater s c i = on_stage-IsLater s c c.stage i

module _ (P : Shared → Check → Type 0)
    (own : (s : Shared) (c : Check) → P s c → P (move s c).0 (move s c).1)
    (other : (s : Shared) (c d : Check) → P s c → P (move s d).0 c) where
  others-All : (s : Shared) (d : Check) (cs : List Check) → All (P s) cs → All (P (move s d).0) cs
  others-All s d [] all = tt
  others-All s d (c ∷ cs) all = (other s c d all.0, others-All s d cs all.1)

  stepped_other : (i : ℕ) (s : Shared) (cs : List Check) (c : Check) → P s c → P (step i s cs).0 c
  unfolding step
  stepped_other i s [] c p = p
  stepped_other zero s (d ∷ cs) c p = other s c d p
  stepped_other (suc i) s (d ∷ cs) c p = stepped_other i s cs c p

  -- What the steps of a goroutine keep of itself and of the others, every step keeps of all.
  pub step-All :
      (i : ℕ) (s : Shared) (cs : List Check)
      → All (P s) cs
      → All (P (step i s cs).0) (step i s cs).1
  unfolding step
  step-All i s [] all = tt
  step-All zero s (c ∷ cs) all = (own s c all.0, others-All s c cs all.1)
  step-All (suc i) s (c ∷ cs) all = (stepped_other i s cs c all.0, step-All i s cs all.1)
