-- ===== src/Startup/Round/Counted.antt =====
-- What main reports of the first round, `online` and `total`, though no lock guards these counters
-- (cmd/haprovider/main.go).
use haprovider.Prelude.{
  ℕ, ◌+◌, ◌≡◌, ◌≤◌, refl, sym, ap, ◌∙◌, true, ◌⊎◌, inl, inr, List, [], ◌∷◌, All, map, length,
  length-map, if◌then◌else◌, arith,
}
use haprovider.Core.Endpoint.{Endpoint}
use haprovider.Startup.Round.{Check, Shared, Round, Turn, play, first_round}
use haprovider.Startup.Round.Moves.{Subject, subject}
use haprovider.Startup.Round.Waited.{in_turn, IsDone, play-IsDone}
use haprovider.Startup.Round.Counters.{
  total_counter, online_counter, total-IsCounter, online-IsCounter, wrote_total, wrote_online,
}
use haprovider.Startup.Round.Tally.{writers, HasRead, IsBounded, play-IsBounded}

-- The providers that are online
pub online_ones : List Check → ℕ
online_ones [] = 0
online_ones (c ∷ cs) = (if c.provider.online then 1 else 0) + online_ones cs

writers-total :
    (s : Shared) (cs : List Check) → All (IsDone s) cs → writers total_counter cs ≡ length cs
unfolding writers wrote_total
writers-total s [] all = refl
writers-total s (c ∷ cs) all =
    let ended = all.0.0 in rw ended (omega (arith, writers-total s cs all.1))

writers-online :
    (s : Shared) (cs : List Check) → All (IsDone s) cs → writers online_counter cs ≡ online_ones cs
unfolding writers wrote_online online_ones
writers-online s [] all = refl
writers-online s (c ∷ cs) all =
    let ended = all.0.0 in rw ended (omega (arith, writers-online s cs all.1))

length-in_turn : (xs ys : List Subject) → length (in_turn xs ys) ≡ length xs + length ys
unfolding in_turn
length-in_turn [] ys = omega arith
length-in_turn (x ∷ xs) ys = omega (arith, length-in_turn xs (x ∷ ys))

length-running :
    (checks running : List Check)
    → map subject running ≡ in_turn (map subject checks) []
    → length running ≡ length checks
length-running checks running h =
    sym (length-map running subject)
    ∙ (ap (λ (xs : List Subject). length xs) h
        ∙ omega (arith, length-in_turn (map subject checks) [], length-map checks subject))

first-total :
    (endpoints : ℕ → Endpoint) (checks : List Check)
    → let r = first_round endpoints checks in IsBounded total_counter r.shared r.running
unfolding first_round writers HasRead
first-total endpoints checks = record { bounded = omega arith; read = tt; nonzero = inl refl }

first-online :
    (endpoints : ℕ → Endpoint) (checks : List Check)
    → let r = first_round endpoints checks in IsBounded online_counter r.shared r.running
unfolding first_round writers HasRead
first-online endpoints checks = record { bounded = omega arith; read = tt; nonzero = inl refl }

-- What a round reports, for `n` providers
pub record IsReport (n : ℕ) (r : Round) : Type 0 where
  pub total : r.shared.total ≤ n
  pub some_total : (n ≡ 0) ⊎ (1 ≤ r.shared.total)
  pub online : r.shared.online ≤ online_ones r.running
  pub some_online : (online_ones r.running ≡ 0) ⊎ (1 ≤ r.shared.online)

-- Once wg.Wait has returned, main reports at most as many providers as there are, of which at most as
-- many are online as are, and reports none, in either count, only if there is none.
pub play-IsReport :
    (endpoints : ℕ → Endpoint) (checks : List Check) (ts : List Turn)
    → (play ts (first_round endpoints checks)).waited ≡ true
    → IsReport (length checks) (play ts (first_round endpoints checks))
play-IsReport endpoints checks ts over =
    let first = first_round endpoints checks in
    let r = play ts first in
    let (subjects, done) = play-IsDone endpoints checks ts over in
    let count = length-running checks r.running subjects in
    let all = writers-total r.shared r.running done in
    let those = writers-online r.shared r.running done in
    let t = play-IsBounded total_counter total-IsCounter ts first (first-total endpoints checks) in
    let o =
      play-IsBounded online_counter online-IsCounter ts first (first-online endpoints checks) in
    record {
      total = omega (arith, t.bounded, all, count);
      some_total = elim t.nonzero [
        | inl none ↦ inl (omega (arith, none, all, count))
        | inr some ↦ inr some
      ];
      online = omega (arith, o.bounded, those);
      some_online = elim o.nonzero [
        | inl none ↦ inl (omega (arith, none, those))
        | inr some ↦ inr some
      ];
    }
