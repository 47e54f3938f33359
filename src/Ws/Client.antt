-- ===== src/Ws/Client.antt =====
-- internal/ws/core.go: a WebSocket connection with its two pumps. A receive from a channel, a write to
-- the socket, an addition to a counter and `len(c.send)` are steps of their own; the cancel of the
-- context and the return that follow a failed call are one step with it. gorilla/websocket decides
-- whether a write or a read fails. The wire has the frames that writePump writes, not those of
-- gorilla's own handlers for pings and close frames. Deadlines and the latency are left out.
pub mod Safety
pub mod Closing
use haprovider.Prelude.{
  ℕ, zero, suc, ◌+◌, ◌≡◌, ◌<◌, Bool, true, false, List, [], ◌∷◌, ◌++◌, length, Text,
}

-- The capacity of the channels send and recv
abbrev pub queue_size : ℕ
queue_size = 32

-- What is written to the socket
pub data Frame : Type 0 where
  data_frame : Text → Frame
  ping_frame : ℕ → Frame
  close_frame : Text → Frame

-- The first caller of Close: it has not come yet, it offers its message to the channel `close`, it
-- has got past the select, and it has returned.
pub data Closer : Type 0 where
  not_called : Closer
  offers : Text → Closer
  cancels finished : Closer

-- readPump: before ReadMessage, with a message for the channel recv, and returned
pub data Reader : Type 0 where
  reads : Reader
  holds : Text → Reader
  reader_gone : Reader

-- writePump: at its select; with the data of a close frame; with the first message, or with one behind
-- which it will take n more; after the write of each, before it is counted; before it counts the queue;
-- with n messages left to flush; and returned.
pub data Writer : Type 0 where
  selects : Writer
  has_close : Text → Writer
  has_first : Text → Writer
  has_next : ℕ → Text → Writer
  wrote_first : Writer
  wrote_next : ℕ → Writer
  measures : Writer
  flushes : ℕ → Writer
  writer_gone : Writer

-- `cancelled` is ctx.Done; `wire` holds the frames written, the last one first.
pub record Client : Type 0 where
  pub closed : Bool
  pub cancelled : Bool
  pub closer : Closer
  pub reader : Reader
  pub writer : Writer
  pub send : List Text
  pub recv : List Text
  pub wire : List Frame
  pub socket_closed : Bool
  pub pingcnt : ℕ
  pub recv_count : ℕ
  pub sent_count : ℕ

-- NewClient
abbrev pub new_client : Client
new_client = record {
  closed = false;
  cancelled = false;
  closer = not_called;
  reader = reads;
  writer = selects;
  send = [];
  recv = [];
  wire = [];
  socket_closed = false;
  pingcnt = 0;
  recv_count = 0;
  sent_count = 0;
}

-- Close, up to its select; a later caller returns at once.
unfoldable pub close_begin : Client → Text → Client
close_begin c msg = record c { closed = true; closer = offers msg }

-- What the deferred calls and destroy leave when writePump returns
unfoldable pub leave_writer : Client → Client
leave_writer c = record c { writer = writer_gone; socket_closed = true }

-- A message that writePump takes from `send`
unfoldable pub taken : Client → List Text → Writer → Client
taken c ms next = record c { send = ms; writer = next }

-- The message written, and after that sentCount.Add(1)
unfoldable pub written : Client → Text → Writer → Client
written c m next = record c { wire = data_frame m ∷ c.wire; writer = next }

unfoldable pub noted : Client → Writer → Client
noted c next = record c { sent_count = c.sent_count + 1; writer = next }

unfoldable pub pinged : Client → Client
pinged c = record c { wire = ping_frame c.pingcnt ∷ c.wire; pingcnt = c.pingcnt + 1 }

pub data Step (c : Client) : Client → Type 0 where
  -- Close
  close_called : (msg : Text) → c.closed ≡ false → Step c (close_begin c msg)
  close_unheard :
      (msg : Text)
      → c.closer ≡ offers msg
      → c.cancelled ≡ true
      → Step c (record c { closer = cancels })
  close_returns : c.closer ≡ cancels → Step c (record c { closer = finished; cancelled = true })
  -- Write
  write_queued :
      (m : Text) → length c.send < queue_size → Step c (record c { send = c.send ++ m ∷ [] })
  -- A receive from Read
  received : (m : Text) (ms : List Text) → c.recv ≡ m ∷ ms → Step c (record c { recv = ms })
  -- readPump
  read_fails :
      c.reader ≡ reads
      → Step c (record c { cancelled = true; socket_closed = true; reader = reader_gone })
  read_message :
      (m : Text)
      → c.reader ≡ reads
      → Step c (record c { recv_count = c.recv_count + 1; reader = holds m })
  read_delivers :
      (m : Text)
      → c.reader ≡ holds m
      → length c.recv < queue_size
      → Step c (record c { recv = c.recv ++ m ∷ []; reader = reads })
  read_gives_up :
      (m : Text)
      → c.reader ≡ holds m
      → c.cancelled ≡ true
      → Step c (record c { reader = reader_gone })
  -- writePump
  write_stops : c.writer ≡ selects → c.cancelled ≡ true → Step c (leave_writer c)
  close_taken :
      (msg : Text)
      → c.closer ≡ offers msg
      → c.writer ≡ selects
      → Step c (record c { closer = cancels; writer = has_close msg })
  close_written :
      (msg : Text)
      → c.writer ≡ has_close msg
      → Step c (leave_writer (record c { wire = close_frame msg ∷ c.wire }))
  close_fails : (msg : Text) → c.writer ≡ has_close msg → Step c (leave_writer c)
  ping_written : c.writer ≡ selects → Step c (pinged c)
  ping_fails :
      c.writer ≡ selects
      → Step c (leave_writer (record c { pingcnt = c.pingcnt + 1; cancelled = true }))
  first_taken :
      (m : Text) (ms : List Text)
      → c.writer ≡ selects
      → c.send ≡ m ∷ ms
      → Step c (taken c ms (has_first m))
  first_written : (m : Text) → c.writer ≡ has_first m → Step c (written c m wrote_first)
  first_fails :
      (m : Text) → c.writer ≡ has_first m → Step c (leave_writer (record c { cancelled = true }))
  first_noted : c.writer ≡ wrote_first → Step c (noted c measures)
  measured : c.writer ≡ measures → Step c (record c { writer = flushes (length c.send) })
  next_taken :
      (n : ℕ) (m : Text) (ms : List Text)
      → c.writer ≡ flushes (suc n)
      → c.send ≡ m ∷ ms
      → Step c (taken c ms (has_next n m))
  next_written : (n : ℕ) (m : Text) → c.writer ≡ has_next n m → Step c (written c m (wrote_next n))
  next_fails :
      (n : ℕ) (m : Text)
      → c.writer ≡ has_next n m
      → Step c (leave_writer (record c { cancelled = true }))
  next_noted : (n : ℕ) → c.writer ≡ wrote_next n → Step c (noted c (flushes n))
  flushed : c.writer ≡ flushes 0 → Step c (record c { writer = selects })

pub data Reach (s : Client) : Client → Type 0 where
  here : Reach s s
  next : {t u : Client} → Reach s t → Step t u → Reach s u
