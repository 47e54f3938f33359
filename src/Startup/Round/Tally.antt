-- ===== src/Startup/Round/Tally.antt =====
-- A counter of the first round that goroutines read and then write without a lock: `total` and `online`
-- of main (cmd/haprovider/main.go).
use haprovider.Prelude.{
  ℕ, zero, suc, ◌+◌, ◌≡◌, ◌≤◌, refl, Bool, true, false, ◌⊎◌, inl, inr, List, [], ◌∷◌, All,
  if◌then◌else◌, ◌==◌, arith,
}
use haprovider.Startup.Round.{
  Stage, Check, Shared, launched, to_stage, move, step, Round, Turn, main, goroutine, main_step,
  take_turn, play,
}

-- A counter: its value, what a goroutine has read of it, and 1 for one that has written it
pub record Counter : Type 0 where
  pub value : Shared → ℕ
  pub read : Stage → ℕ
  pub wrote : Stage → Bool → ℕ

-- A step of a goroutine either leaves the counter alone or writes one more than the goroutine read,
-- and a goroutine reads what the counter then is.
pub record IsCounting (k : Counter) (s : Shared) (c : Check) (stage : Stage) (r : Shared × Check)
    : Type 0 where
  pub writes :
      ((k.value r.0 ≡ k.value s)
        × (k.wrote r.1.stage r.1.provider.online ≡ k.wrote stage c.provider.online))
      ⊎ ((k.value r.0 ≡ k.read stage + 1)
          × (k.wrote r.1.stage r.1.provider.online ≡ k.wrote stage c.provider.online + 1))
  pub reads : (k.read r.1.stage ≤ k.read stage) ⊎ (k.read r.1.stage ≤ k.value s)

-- What a counter is like for goroutines that main has started
pub record IsCounter (k : Counter) : Type 0 where
  pub moves : (s : Shared) (c : Check) → IsCounting k s c c.stage (move s c)
  pub unread : k.read launched ≡ 0
  pub unwritten : (online : Bool) → k.wrote launched online ≡ 0
  pub started : (s : Shared) (n : ℕ) → k.value (record s { waiting = n }) ≡ k.value s

module _ (k : Counter) where
  unfoldable pub writers : List Check → ℕ
  writers [] = 0
  writers (c ∷ cs) = k.wrote c.stage c.provider.online + writers cs

  unfoldable pub HasRead : ℕ → Check → Type 0
  HasRead n c = k.read c.stage ≤ n

  -- The counter is at most the number of the goroutines that have written it, and not 0 if there is one.
  pub record IsBounded (s : Shared) (cs : List Check) : Type 0 where
    pub bounded : k.value s ≤ writers cs
    pub read : All (HasRead (writers cs)) cs
    pub nonzero : (writers cs ≡ 0) ⊎ (1 ≤ k.value s)

module _ (k : Counter) (law : IsCounter k) where
  HasRead-weaken : (n m : ℕ) (cs : List Check) → n ≤ m → All (HasRead k n) cs → All (HasRead k m) cs
  unfolding HasRead
  HasRead-weaken n m [] h all = tt
  HasRead-weaken n m (c ∷ cs) h all = (omega (arith, h, all.0), HasRead-weaken n m cs h all.1)

  -- A step where no goroutine has read more than `n` of a counter that is `n` at most
  record IsStep (n : ℕ) (s : Shared) (cs : List Check) (r : Shared × List Check) : Type 0 where
    read : All (HasRead k n) r.1
    written :
        ((k.value r.0 ≡ k.value s) × (writers k r.1 ≡ writers k cs))
        ⊎ ((1 ≤ k.value r.0) × (k.value r.0 ≤ n + 1) × (writers k r.1 ≡ writers k cs + 1))

  step-IsStep :
      (n i : ℕ) (s : Shared) (cs : List Check)
      → k.value s ≤ n
      → All (HasRead k n) cs
      → IsStep n s cs (step i s cs)
  unfolding step writers HasRead
  step-IsStep n i s [] small all = record { read = tt; written = inl (refl, refl) }
  step-IsStep n zero s (c ∷ cs) small all =
      let m = law.moves s c in
      record {
        read = (
          elim m.reads [
            | inl less ↦ omega (arith, less, all.0)
            | inr less ↦ omega (arith, less, small)
          ],
          all.1,
        );
        written = elim m.writes [
          | inl (same, w) ↦ inl (same, omega (arith, w))
          | inr (more, w) ↦ inr (omega (arith, more), omega (arith, more, all.0), omega (arith, w))
        ];
      }
  step-IsStep n (suc i) s (c ∷ cs) small all =
      let ih = step-IsStep n i s cs small all.1 in
      record {
        read = (all.0, ih.read);
        written = elim ih.written [
          | inl (same, w) ↦ inl (same, omega (arith, w))
          | inr (least, most, w) ↦ inr (least, most, omega (arith, w))
        ];
      }

  step-IsBounded :
      (i : ℕ) (s : Shared) (cs : List Check)
      → IsBounded k s cs
      → IsBounded k (step i s cs).0 (step i s cs).1
  step-IsBounded i s cs v =
      let n = writers k cs in
      let r = step-IsStep n i s cs v.bounded v.read in
      elim r.written [
        | inl (same, w) ↦ record {
          bounded = omega (arith, same, w, v.bounded);
          read = HasRead-weaken n _ (step i s cs).1 (omega (arith, w)) r.read;
          nonzero = elim v.nonzero [
            | inl none ↦ inl (omega (arith, w, none))
            | inr some ↦ inr (omega (arith, same, some))
          ];
        }
        | inr (least, most, w) ↦ record {
          bounded = omega (arith, most, w);
          read = HasRead-weaken n _ (step i s cs).1 (omega (arith, w)) r.read;
          nonzero = inr least;
        }
      ]

  waiting-IsBounded :
      (r : Round) (b : Bool)
      → IsBounded k r.shared r.running
      → let r' = if b then record r { waited = true } else r in IsBounded k r'.shared r'.running
  waiting-IsBounded r true v = v
  waiting-IsBounded r false v = v

  main_step-IsBounded :
      (r : Round) (cs : List Check)
      → IsBounded k r.shared r.running
      → IsBounded k (main_step r cs).shared (main_step r cs).running
  unfolding main_step writers to_stage HasRead
  main_step-IsBounded r [] v = waiting-IsBounded r (r.shared.waiting == 0) v
  main_step-IsBounded r (c ∷ cs) v =
      let same = law.started r.shared (r.shared.waiting + 1) in
      let none = law.unwritten c.provider.online in
      record {
        bounded = omega (arith, same, none, v.bounded);
        read = (
          omega (arith, law.unread),
          HasRead-weaken (writers k r.running) _ r.running (omega (arith, none)) v.read,
        );
        nonzero = elim v.nonzero [
          | inl nothing ↦ inl (omega (arith, none, nothing))
          | inr some ↦ inr (omega (arith, same, some))
        ];
      }

  take_turn-IsBounded :
      (t : Turn) (r : Round)
      → IsBounded k r.shared r.running
      → IsBounded k (take_turn t r).shared (take_turn t r).running
  unfolding take_turn
  take_turn-IsBounded main r v = main_step-IsBounded r r.pending v
  take_turn-IsBounded (goroutine i) r v = step-IsBounded i r.shared r.running v

  pub play-IsBounded :
      (ts : List Turn) (r : Round)
      → IsBounded k r.shared r.running
      → IsBounded k (play ts r).shared (play ts r).running
  unfolding play
  play-IsBounded [] r v = v
  play-IsBounded (t ∷ ts) r v = play-IsBounded ts (take_turn t r) (take_turn-IsBounded t r v)
