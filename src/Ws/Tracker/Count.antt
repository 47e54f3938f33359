-- ===== src/Ws/Tracker/Count.antt =====
-- The count of connections over a registration (internal/ws/shutdown.go).
use haprovider.Prelude.{◌≡◌, ap, ◌∙◌, true, false, ℤ, pos, negsuc, arith}
use haprovider.Prelude.Outcome.{done}
use haprovider.Ws.Tracker.{Tracker, increment, decrement, close_idle, add, release}

decrement-increment : (n : ℤ) → decrement (increment n) ≡ n
decrement-increment (pos n) = ground arith
decrement-increment (negsuc n) = ground arith

release-n : (u v : Tracker) → release u ≡ done v → v.n ≡ decrement u.n
unfolding release close_idle
release-n u v h = ground arith

-- A connection that was counted and is released leaves the count as it was.
pub release-add :
    (t u v : Tracker) → (add t).1 ≡ true → u.n ≡ (add t).0.n → release u ≡ done v → v.n ≡ t.n
unfolding add
release-add t u v added same h =
    let counted : (add t).0.n ≡ increment t.n = ground arith in
    release-n u v h ∙ (ap decrement (same ∙ counted) ∙ decrement-increment t.n)

-- A connection that is refused is not counted.
pub add-refused : (t : Tracker) → (add t).1 ≡ false → (add t).0.n ≡ t.n
unfolding add
add-refused t refused = ground arith
