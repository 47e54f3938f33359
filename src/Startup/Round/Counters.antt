-- ===== src/Startup/Round/Counters.antt =====
-- The counters `total` and `online` of the first round, as its goroutines read and write them
-- (cmd/haprovider/main.go).
use haprovider.Prelude.{ℕ, ◌≡◌, refl, sym, ◌∙◌, Bool, true, inl, inr, if◌then◌else◌, arith}
use haprovider.Core.Provider.{Provider, mark_healthy}
use haprovider.Core.Provider.Health.{mark_unhealthy-is_offline}
use haprovider.Startup.Round.{
  Stage, Check, Shared, launched, counted, checking, naming, comparing, observing, passed,
  counted_online, healthy, failed, leaving, finished, to_stage, on_stage, move,
}
use haprovider.Startup.Round.Inside.{
  in_run, IsInside, ask-IsInside, on_named-IsInside, compare-IsInside,
}
use haprovider.Startup.Round.Tally.{Counter, IsCounting, IsCounter}

unfoldable pub read_total : Stage → ℕ
read_total (counted n) = n
read_total _ = 0

unfoldable pub wrote_total : Stage → Bool → ℕ
wrote_total launched online = 0
wrote_total (counted n) online = 0
wrote_total _ online = 1

unfoldable pub read_online : Stage → ℕ
read_online (counted_online n) = n
read_online _ = 0

unfoldable pub wrote_online : Stage → Bool → ℕ
wrote_online healthy online = 1
wrote_online leaving online = if online then 1 else 0
wrote_online finished online = if online then 1 else 0
wrote_online _ online = 0

abbrev pub total_counter : Counter
total_counter = record { value = λ s. s.total; read = read_total; wrote = wrote_total }

abbrev pub online_counter : Counter
online_counter = record { value = λ s. s.online; read = read_online; wrote = wrote_online }

-- Run reads and writes neither counter.
record IsAside (stage : Stage) : Type 0 where
  read_total_none : read_total stage ≡ 0
  wrote_total_one : (online : Bool) → wrote_total stage online ≡ 1
  read_online_none : read_online stage ≡ 0
  wrote_online_none : (online : Bool) → wrote_online stage online ≡ 0

in_run-IsAside : (stage : Stage) → in_run stage ≡ true → IsAside stage
unfolding in_run read_total wrote_total read_online wrote_online
in_run-IsAside launched h = cc
in_run-IsAside (counted n) h = cc
in_run-IsAside checking h = cc
in_run-IsAside (naming info) h = record {
  read_total_none = refl;
  wrote_total_one = λ online. refl;
  read_online_none = refl;
  wrote_online_none = λ online. refl;
}
in_run-IsAside (comparing info) h = record {
  read_total_none = refl;
  wrote_total_one = λ online. refl;
  read_online_none = refl;
  wrote_online_none = λ online. refl;
}
in_run-IsAside (observing info) h = record {
  read_total_none = refl;
  wrote_total_one = λ online. refl;
  read_online_none = refl;
  wrote_online_none = λ online. refl;
}
in_run-IsAside passed h = cc
in_run-IsAside (counted_online n) h = cc
in_run-IsAside healthy h = cc
in_run-IsAside (failed error) h = record {
  read_total_none = refl;
  wrote_total_one = λ online. refl;
  read_online_none = refl;
  wrote_online_none = λ online. refl;
}
in_run-IsAside leaving h = cc
in_run-IsAside finished h = cc

inside-total :
    (s : Shared) (c : Check) (stage : Stage) (n : ℕ) (r : Shared × Check)
    → wrote_total stage c.provider.online ≡ 1
    → IsInside s c n r
    → IsCounting total_counter s c stage r
inside-total s c stage n r one i =
    let a = in_run-IsAside r.1.stage i.stage in
    record {
      writes = inl (i.total, a.wrote_total_one r.1.provider.online ∙ sym one);
      reads = inl (omega (arith, a.read_total_none));
    }

inside-online :
    (s : Shared) (c : Check) (stage : Stage) (n : ℕ) (r : Shared × Check)
    → wrote_online stage c.provider.online ≡ 0
    → IsInside s c n r
    → IsCounting online_counter s c stage r
inside-online s c stage n r none i =
    let a = in_run-IsAside r.1.stage i.stage in
    record {
      writes = inl (i.online, a.wrote_online_none r.1.provider.online ∙ sym none);
      reads = inl (omega (arith, a.read_online_none));
    }

on_stage-total :
    (s : Shared) (c : Check) (stage : Stage)
    → c.stage ≡ stage
    → IsCounting total_counter s c stage (on_stage s c stage)
unfolding on_stage to_stage read_total wrote_total
on_stage-total s c launched at = record { writes = inl (refl, refl); reads = inr (omega arith) }
on_stage-total s c (counted n) at = record { writes = inr (refl, refl); reads = inl (omega arith) }
on_stage-total s c checking at =
    inside-total s c checking _ _ refl (ask-IsInside s c (s.endpoint c.home) _)
on_stage-total s c (naming info) at =
    inside-total s c (naming info) _ _ refl (on_named-IsInside s c info _)
on_stage-total s c (comparing info) at =
    inside-total s c (comparing info) _ _ refl (compare-IsInside s c (s.endpoint c.home) info)
on_stage-total s c (observing info) at = record {
  writes = inl (refl, refl);
  reads = inl (omega arith);
}
on_stage-total s c passed at = record { writes = inl (refl, refl); reads = inl (omega arith) }
on_stage-total s c (counted_online n) at = record {
  writes = inl (refl, refl);
  reads = inl (omega arith);
}
on_stage-total s c healthy at = record { writes = inl (refl, refl); reads = inl (omega arith) }
on_stage-total s c (failed error) at = record {
  writes = inl (refl, refl);
  reads = inl (omega arith);
}
on_stage-total s c leaving at = record { writes = inl (refl, refl); reads = inl (omega arith) }
on_stage-total s c finished at = record {
  writes = inl (refl, rw at refl);
  reads = inl (rw at (omega arith));
}

mark_healthy-online : (p : Provider) (now : ℕ) → (mark_healthy p now).online ≡ true
unfolding mark_healthy
mark_healthy-online p now = ground arith

on_stage-online :
    (s : Shared) (c : Check) (stage : Stage)
    → c.stage ≡ stage
    → IsCounting online_counter s c stage (on_stage s c stage)
unfolding on_stage to_stage read_online wrote_online
on_stage-online s c launched at = record { writes = inl (refl, refl); reads = inl (omega arith) }
on_stage-online s c (counted n) at = record { writes = inl (refl, refl); reads = inl (omega arith) }
on_stage-online s c checking at =
    inside-online s c checking _ _ refl (ask-IsInside s c (s.endpoint c.home) _)
on_stage-online s c (naming info) at =
    inside-online s c (naming info) _ _ refl (on_named-IsInside s c info _)
on_stage-online s c (comparing info) at =
    inside-online s c (comparing info) _ _ refl (compare-IsInside s c (s.endpoint c.home) info)
on_stage-online s c (observing info) at = record {
  writes = inl (refl, refl);
  reads = inl (omega arith);
}
on_stage-online s c passed at = record { writes = inl (refl, refl); reads = inr (omega arith) }
on_stage-online s c (counted_online n) at = record {
  writes = inr (refl, refl);
  reads = inl (omega arith);
}
on_stage-online s c healthy at = record {
  writes = inl (refl, rw (mark_healthy-online c.provider c.now) refl);
  reads = inl (omega arith);
}
on_stage-online s c (failed error) at = record {
  writes = inl (refl, rw (mark_unhealthy-is_offline c.provider error c.now) refl);
  reads = inl (omega arith);
}
on_stage-online s c leaving at = record { writes = inl (refl, refl); reads = inl (omega arith) }
on_stage-online s c finished at = record {
  writes = inl (refl, rw at refl);
  reads = inl (rw at (omega arith));
}

pub total-IsCounter : IsCounter total_counter
unfolding read_total wrote_total move
total-IsCounter = record {
  moves = λ s c. on_stage-total s c c.stage refl;
  unread = refl;
  unwritten = λ online. refl;
  started = λ s n. refl;
}

pub online-IsCounter : IsCounter online_counter
unfolding read_online wrote_online move
online-IsCounter = record {
  moves = λ s c. on_stage-online s c c.stage refl;
  unread = refl;
  unwritten = λ online. refl;
  started = λ s n. refl;
}
