-- ===== src/Ws/Client/Closing.antt =====
-- Close never waits for ever (internal/ws/core.go).
use haprovider.Prelude.{true, ℕ, zero, suc, ◌≡◌, ◌≤◌, refl, ◌∙◌, List, [], ◌∷◌, length, Text, arith}
use haprovider.Ws.Client.{
  offers, cancels, Writer, selects, has_close, has_first, has_next, wrote_first, wrote_next,
  measures, flushes, writer_gone, Client, new_client, taken, written, noted, Step, close_unheard,
  close_taken, first_written, first_noted, measured, next_taken, next_written, next_noted, flushed,
  Reach, here, next,
}
use haprovider.Ws.Client.Safety.{IsValid, Reach-IsValid}

before : {b c d : Client} → Step b c → Reach c d → Reach b d
before s here = next here s
before s (next r t) = next (before s r) t

-- writePump gets through what it flushes, and the caller of Close still offers its message.
record BackAtSelect (c : Client) : Type 0 where
  state : Client
  run : Reach c state
  selecting : state.writer ≡ selects
  same : state.closer ≡ c.closer

-- A step that leaves Close alone, before a run to the select
back : {c d : Client} → Step c d → d.closer ≡ c.closer → BackAtSelect d → BackAtSelect c
back step same b = record {
  state = b.state;
  run = before step b.run;
  selecting = b.selecting;
  same = b.same ∙ same;
}

flush_all :
    (n : ℕ) (ms : List Text) (c : Client)
    → c.writer ≡ flushes n
    → c.send ≡ ms
    → n ≤ length ms
    → BackAtSelect c
unfolding taken written noted
flush_all zero ms c w e h = record {
  state = record c { writer = selects };
  run = next here (flushed w);
  selecting = refl;
  same = refl;
}
flush_all (suc n) [] c w e h = absurd (omega arith)
flush_all (suc n) (m ∷ ms) c w e h =
    let t = taken c ms (has_next n m) in
    let d = written t m (wrote_next n) in
    back (next_taken n m ms w e) refl (
      back (next_written n m refl) refl (
        back (next_noted n refl) refl
          (flush_all n ms (noted d (flushes n)) refl refl (omega arith))))

from_measures : (c : Client) → c.writer ≡ measures → BackAtSelect c
from_measures c w =
    let d = record c { writer = flushes (length c.send) } in
    back (measured w) refl (flush_all (length c.send) c.send d refl refl (omega arith))

from_wrote : (c : Client) → c.writer ≡ wrote_first → BackAtSelect c
unfolding noted
from_wrote c w = back (first_noted w) refl (from_measures (noted c measures) refl)

-- A run to a state in which the caller has got past its select
pub record Closes (c : Client) : Type 0 where
  pub state : Client
  pub run : Reach c state
  pub past : state.closer ≡ cancels

at_select : (c : Client) (msg : Text) → c.closer ≡ offers msg → BackAtSelect c → Closes c
at_select c msg offering b = record {
  state = record b.state { closer = cancels; writer = has_close msg };
  run = next b.run (close_taken msg (b.same ∙ offering) b.selecting);
  past = refl;
}

unheard : (c : Client) (msg : Text) → c.closer ≡ offers msg → c.cancelled ≡ true → Closes c
unheard c msg offering done = record {
  state = record c { closer = cancels };
  run = next here (close_unheard msg offering done);
  past = refl;
}

by_writer :
    (c : Client) (msg : Text) (w : Writer)
    → c.writer ≡ w
    → c.closer ≡ offers msg
    → IsValid c
    → Closes c
unfolding written noted
by_writer c msg selects e offering v =
    at_select c msg offering (record { state = c; run = here; selecting = e; same = refl })
by_writer c msg (has_first m) e offering v =
    at_select c msg offering
      (back (first_written m e) refl (from_wrote (written c m wrote_first) refl))
by_writer c msg wrote_first e offering v = at_select c msg offering (from_wrote c e)
by_writer c msg measures e offering v = at_select c msg offering (from_measures c e)
by_writer c msg (flushes n) e offering v =
    at_select c msg offering (flush_all n c.send c e refl (ground (arith, v.queued)))
by_writer c msg (has_next n m) e offering v =
    let d = written c m (wrote_next n) in
    at_select c msg offering (
      back (next_written n m e) refl (
        back (next_noted n refl) refl
          (flush_all n c.send (noted d (flushes n)) refl refl (ground (arith, v.queued)))))
by_writer c msg (wrote_next n) e offering v = at_select c msg offering (
    back (next_noted n e) refl
      (flush_all n c.send (noted c (flushes n)) refl refl (ground (arith, v.queued))))
by_writer c msg (has_close m) e offering v = unheard c msg offering (ground (arith, v.gone))
by_writer c msg writer_gone e offering v = unheard c msg offering (ground (arith, v.gone))

-- In every reachable state where a caller of Close offers its message, the goroutines can go on so
-- that it gets past its select: writePump is there to take the message, or has at most its writes to
-- finish first, or else the context is done.
pub Reach-Closes : {c : Client} (msg : Text) → Reach new_client c → c.closer ≡ offers msg → Closes c
Reach-Closes {c} msg r offering = by_writer c msg c.writer refl offering (Reach-IsValid r)
