-- ===== src/Connection/Channel.antt =====
-- Two connections (include/custom_net_lib/connection_net_interface.hpp) with a stream between them: what
-- one writes is what the other reads, in any interleaving. Both have done their handshake. The writing side
-- is a Link of Connection/Steps; the reading side sends messages of its own meanwhile.
pub mod Reception
pub mod Arrival
pub mod Delivery
pub mod Order
pub mod Quiescence
mod Tests
use networking_cpp_intro.Common.{ℕ, ◌≡◌, Bool, true, false, List, [], ◌∷◌, ◌++◌, some, length}
use networking_cpp_intro.Message.{Message}
use networking_cpp_intro.Connection.{
  Connection, AsyncOp, posted_send, posted_close, writing_header, writing_payload, send_data,
  disconnect, complete,
}
use networking_cpp_intro.Connection.Steps
use networking_cpp_intro.Connection.Steps.{Link, resumed}
use networking_cpp_intro.Connection.Pending.{is_reading}
use networking_cpp_intro.Connection.Reader.{first_read, drop_read, buffer_size, fill}

-- `taken` are the bytes that the reader has read, and `wire` those written that it has not.
pub record Channel : Type 0 where
  pub writer : Link
  pub reader : Connection
  pub taken : List ℕ
  pub wire : List ℕ

-- Work that belongs to the sending of messages or to the closing of the socket.
abbrev pub is_sending : AsyncOp → Bool
is_sending (posted_send m) = true
is_sending posted_close = true
is_sending writing_header = true
is_sending writing_payload = true
is_sending _ = false

pub data Step (c : Channel) : Channel → Type 0 where
  writer_steps :
      (w : Link) (more : List ℕ)
      → Steps.Step c.writer w
      → w.sent ≡ c.writer.sent ++ more
      → Step c (record c { writer = w; wire = c.wire ++ more })
  reader_reads :
      (op : AsyncOp) (bytes rest : List ℕ)
      → first_read c.reader.pending ≡ some op
      → c.wire ≡ bytes ++ rest
      → length bytes ≡ buffer_size op c.reader
      → Step c (record c { reader = fill op bytes c.reader; taken = c.taken ++ bytes; wire = rest })
  read_fails :
      (before after : List AsyncOp) (op : AsyncOp) (bytes : List ℕ) (r : Connection)
      → is_reading op ≡ true
      → c.reader.pending ≡ before ++ op ∷ after
      → complete op true bytes (resumed before after c.reader) ≡ some r
      → Step c (record c { reader = r })
  reader_sends : (m : Message) → Step c (record c { reader = send_data m c.reader })
  reader_hangs_up : Step c (record c { reader = disconnect c.reader })
  reader_completes :
      (before after : List AsyncOp) (op : AsyncOp) (failed : Bool) (bytes : List ℕ) (r : Connection)
      → is_sending op ≡ true
      → c.reader.pending ≡ before ++ op ∷ after
      → complete op failed bytes (resumed before after c.reader) ≡ some r
      → Step c (record c { reader = r })

pub data Reach (c : Channel) : Channel → Type 0 where
  here : Reach c c
  next : {d e : Channel} → Reach c d → Step d e → Reach c e
