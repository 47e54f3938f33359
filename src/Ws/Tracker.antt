-- ===== src/Ws/Tracker.antt =====
-- internal/ws/shutdown.go. The mutex makes each call one step; closing a closed channel panics.
pub mod Shutdown
pub mod Count
use haprovider.Prelude.{ℕ, ◌+◌, ◌-◌, ◌&&◌, Bool, true, false, ◌==◌, if◌then◌else◌}
use haprovider.Prelude.Outcome.{Outcome, done, panicked, ◌>>=◌}
use haprovider.Prelude.{ℤ, pos, negsuc}

-- `shutdown` and `idle` say whether the channel is closed. `n` is an int: an unpaired done takes it
-- below 0.
pub record Tracker : Type 0 where
  pub closing : Bool
  pub n : ℤ
  pub shutdown : Bool
  pub idle : Bool

abbrev pub new_tracker : Tracker
new_tracker = record { closing = false; n = pos 0; shutdown = false; idle = false }

abbrev increment : ℤ → ℤ
increment (pos n) = pos (n + 1)
increment (negsuc n) = if n == 0 then pos 0 else negsuc (n - 1)

abbrev decrement : ℤ → ℤ
decrement (pos n) = if n == 0 then negsuc 0 else pos (n - 1)
decrement (negsuc n) = negsuc (n + 1)

abbrev is_zero : ℤ → Bool
is_zero (pos n) = n == 0
is_zero (negsuc n) = false

-- close(t.idle)
close_idle : Tracker → Outcome Tracker
close_idle t = if t.idle then panicked else done (record t { idle = true })

-- close(t.shutdown)
close_shutdown : Tracker → Outcome Tracker
close_shutdown t = if t.shutdown then panicked else done (record t { shutdown = true })

unfoldable pub add : Tracker → Tracker × Bool
add t = if t.closing then (t, false) else (record t { n = increment t.n }, true)

-- The method `done`
unfoldable pub release : Tracker → Outcome Tracker
unfolding close_idle
release t =
    let u = record t { n = decrement t.n } in
    if u.closing && is_zero u.n then close_idle u else done u

-- closeAll
unfoldable pub close_all : Tracker → Outcome Tracker
unfolding close_idle close_shutdown
close_all t = if t.closing then done t else do
  u ← close_shutdown (record t { closing = true })
  if is_zero u.n then close_idle u else done u

-- wait: it returns once `idle` is closed, or with the context's error; true stands for nil.
unfoldable pub can_return : Tracker → Bool
can_return t = t.idle
