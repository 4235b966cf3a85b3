-- ===== src/Connection/Reader.antt =====
-- connection_net_interface.hpp: the read side, fed with a stream of bytes. `async_read` completes
-- when its buffer is full, so each pending read of a message takes its fill from the stream.
pub mod Receipt
pub mod Arrival
pub mod Payloads
use networking_cpp_intro.Common.{
  ℕ, zero, suc, ◌+◌, ltb, leb, ◌&&◌, if◌then◌else◌, Bool, true, false, List, [], ◌∷◌, ◌++◌, Option,
  none, some, length, take, drop,
}
use networking_cpp_intro.Message.{Message, MessageHeader, size, resize, overwrite}
use networking_cpp_intro.Message.Wire.{header_length, payload_bytes}
use networking_cpp_intro.Connection.{
  Connection, AsyncOp, OwnedMessage, reading_header, reading_payload, on_read_header,
  on_read_payload,
}
use networking_cpp_intro.Connection.Pending.{is_reading}

-- The first pending read of a message, and the pending work without it.
abbrev pub first_read : List AsyncOp → Option AsyncOp
first_read [] = none
first_read (op ∷ ops) = if is_reading op then some op else first_read ops

abbrev pub drop_read : List AsyncOp → List AsyncOp
drop_read [] = []
drop_read (op ∷ ops) = if is_reading op then ops else op ∷ drop_read ops

-- The size of a read's buffer.
abbrev pub buffer_size : AsyncOp → Connection → ℕ
buffer_size reading_header c = header_length
buffer_size reading_payload c = size c.tmp_input_msg
buffer_size _ c = 0

-- The read completes with `bytes`.
abbrev pub fill : AsyncOp → List ℕ → Connection → Connection
fill reading_header bytes c =
    on_read_header false bytes (record c { pending = drop_read c.pending })
fill reading_payload bytes c =
    on_read_payload false bytes (record c { pending = drop_read c.pending })
fill _ bytes c = c

-- At most `fuel` reads complete; what is left of the stream is returned.
pub run_reads : ℕ → List ℕ → Connection → Connection × List ℕ
run_reads zero stream c = (c, stream)
run_reads (suc fuel) stream c = elim (first_read c.pending) [
  | none ↦ (c, stream)
  | some op ↦
      let rest =
        run_reads fuel (drop (buffer_size op c) stream)
          (fill op (take (buffer_size op c) stream) c) in
      if leb (buffer_size op c) (length stream) then rest else (c, stream)
]
