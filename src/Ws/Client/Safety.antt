-- ===== src/Ws/Client/Safety.antt =====
-- What a connection keeps in any order of its goroutines' steps (internal/ws/core.go).
use haprovider.Prelude.{
  ℕ, suc, ◌+◌, ◌≡◌, ◌≤◌, ◌⊎◌, Bool, true, false, List, [], ◌∷◌, length, length-append, arith,
}
use haprovider.Ws.Client.{
  queue_size, Frame, data_frame, ping_frame, close_frame, Closer, not_called, offers, cancels,
  finished, Writer, has_close, has_next, wrote_first, wrote_next, flushes, writer_gone, Client,
  new_client, close_begin, leave_writer, taken, written, noted, pinged, Step, close_called,
  close_unheard, close_returns, write_queued, received, read_fails, read_message, read_delivers,
  read_gives_up, write_stops, close_taken, close_written, close_fails, ping_written, ping_fails,
  first_taken, first_written, first_fails, first_noted, measured, next_taken, next_written,
  next_fails, next_noted, flushed, Reach, here, next,
}

abbrev pub closes : List Frame → ℕ
closes [] = 0
closes (close_frame m ∷ fs) = suc (closes fs)
closes (data_frame m ∷ fs) = closes fs
closes (ping_frame n ∷ fs) = closes fs

abbrev pub data_frames : List Frame → ℕ
data_frames [] = 0
data_frames (data_frame m ∷ fs) = suc (data_frames fs)
data_frames (close_frame m ∷ fs) = data_frames fs
data_frames (ping_frame n ∷ fs) = data_frames fs

abbrev pub before_last : List Frame → List Frame
before_last [] = []
before_last (f ∷ fs) = fs

abbrev pub is_gone : Writer → Bool
is_gone writer_gone = true
is_gone _ = false

-- 1 between a write and the addition that counts it
abbrev pub uncounted : Writer → ℕ
uncounted wrote_first = 1
uncounted (wrote_next n) = 1
uncounted _ = 0

-- 1 once Close has handed its message to writePump
abbrev pub told : Writer → ℕ
told (has_close m) = 1
told writer_gone = 1
told _ = 0

abbrev pub left_to_flush : Writer → ℕ
left_to_flush (flushes n) = n
left_to_flush (has_next n m) = n
left_to_flush (wrote_next n) = n
left_to_flush _ = 0

-- How far the first caller of Close has come
abbrev pub stage : Closer → ℕ
stage not_called = 0
stage (offers m) = 1
stage cancels = 2
stage finished = 3

pub record IsValid (c : Client) : Type 0 where
  pub counted : c.sent_count + uncounted c.writer ≡ data_frames c.wire
  pub no_close_yet : is_gone c.writer ≡ false → closes c.wire ≡ 0
  pub close_last : closes (before_last c.wire) ≡ 0
  pub queued : left_to_flush c.writer ≤ length c.send
  pub bounded : (length c.send ≤ queue_size) × (length c.recv ≤ queue_size)
  pub gone : told c.writer ≡ 1 → (c.cancelled ≡ true) ⊎ (stage c.closer ≡ 2)
  pub returned : stage c.closer ≡ 3 → c.cancelled ≡ true
  pub once : c.closed ≡ false → stage c.closer ≡ 0

Step-IsValid : {c d : Client} → Step c d → IsValid c → IsValid d
unfolding close_begin leave_writer taken written noted pinged
Step-IsValid (close_called msg h) v = ground (arith, v.gone, v.once, v.returned)
Step-IsValid (close_unheard msg h k) v = ground arith
Step-IsValid (close_returns h) v = ground arith
Step-IsValid {c = c} (write_queued m h) v = ground (arith, length-append c.send (m ∷ []))
Step-IsValid (received m ms h) v = ground arith
Step-IsValid (read_fails h) v = ground arith
Step-IsValid (read_message m h) v = ground arith
Step-IsValid {c = c} (read_delivers m h k) v = ground (arith, length-append c.recv (m ∷ []))
Step-IsValid (read_gives_up m h k) v = ground arith
Step-IsValid (write_stops h k) v = ground arith
Step-IsValid (close_taken msg h k) v = ground arith
Step-IsValid (close_written msg h) v = ground arith
Step-IsValid (close_fails msg h) v = ground arith
Step-IsValid (ping_written h) v = ground arith
Step-IsValid (ping_fails h) v = ground arith
Step-IsValid (first_taken m ms h k) v = ground arith
Step-IsValid (first_written m h) v = ground arith
Step-IsValid (first_fails m h) v = ground arith
Step-IsValid (first_noted h) v = ground arith
Step-IsValid (measured h) v = ground arith
Step-IsValid (next_taken n m ms h k) v = ground arith
Step-IsValid (next_written n m h) v = ground arith
Step-IsValid (next_fails n m h) v = ground arith
Step-IsValid (next_noted n h) v = ground arith
Step-IsValid (flushed h) v = ground arith

-- In every reachable state, of the frames that writePump has written, at most one is a close frame,
-- nothing is behind it, and every data frame is counted but the last while writePump is between its
-- write and the addition; both queues hold at most 32 messages, writePump never flushes more than is
-- queued, and it has returned only if the context is done or Close has got past its select.
pub Reach-IsValid : {c : Client} → Reach new_client c → IsValid c
Reach-IsValid here = ground arith
Reach-IsValid (next r s) = Step-IsValid s (Reach-IsValid r)
