-- ===== src/Connection/Reader/Arrival.antt =====
-- connection_net_interface.hpp: the messages that the read side makes of the bytes of messages.
use networking_cpp_intro.Common.{
  ℕ, zero, suc, ◌*◌, ◌≤◌, ◌≡◌, refl, sym, ◌∙◌, Option, some, none, append-nil, ltb, Bool-cases, inl,
  inr, List, [], ◌∷◌, ◌++◌, append_assoc, length, ◌<◌, arith, All,
}
use networking_cpp_intro.Message.{Message, size}
use networking_cpp_intro.Message.Wire.{header_length, frame, frames, frames-nil, frames-cons}
use networking_cpp_intro.Connection.{Connection, OwnedMessage, server, client, reading_header}
use networking_cpp_intro.Connection.Reader.{run_reads}
use networking_cpp_intro.Connection.Reader.Receipt.{
  after_message, arrive, Fits, IsListening, first_read-select, run_reads_full, run_reads_bare,
  after-IsListening,
}

abbrev pub after_messages : List Message → Connection → Connection
after_messages [] c = c
after_messages (m ∷ ms) c = after_messages ms (after_message m c)

pub after_messages-snoc :
    (ms : List Message) (m : Message) (c : Connection)
    → after_messages (ms ++ m ∷ []) c ≡ after_message m (after_messages ms c)
after_messages-snoc [] m c = refl
after_messages-snoc (x ∷ ms) m c = after_messages-snoc ms m (after_message x c)

-- The entries that messages become one after the other, where the receiver's buffer held `tmp` before.
abbrev pub arrivals : Option ℕ → Message → List Message → List OwnedMessage
arrivals from tmp [] = []
arrivals from tmp (m ∷ ms) =
    record { remote = from; msg = arrive tmp m } ∷ arrivals from (arrive tmp m) ms

-- What stands in the entry beside a message.
abbrev pub remote_of : Connection → Option ℕ
remote_of c = elim c.owner [ server ↦ some c.self | client ↦ none ]

pub after_messages-arrivals :
    (ms : List Message) (c : Connection)
    → (after_messages ms c).in_msg_queue
      ≡ c.in_msg_queue ++ arrivals (remote_of c) c.tmp_input_msg ms
after_messages-arrivals [] c = sym (append-nil c.in_msg_queue)
after_messages-arrivals (m ∷ ms) c =
    after_messages-arrivals ms (after_message m c)
    ∙ append_assoc c.in_msg_queue
        (record { remote = remote_of c; msg = arrive c.tmp_input_msg m } ∷ [])
        (arrivals (remote_of c) (arrive c.tmp_input_msg m) ms)

-- Less than a header is left in the stream, and stays there.
run_reads_short :
    (fuel : ℕ) (rest : List ℕ) (c : Connection)
    → IsListening c
    → length rest < header_length
    → run_reads fuel rest c ≡ (c, rest)
unfolding run_reads
run_reads_short zero rest c l h = refl
run_reads_short (suc fuel) rest c l h =
    rw (first_read-select c.pending reading_header [] l, run_reads) (ground arith)

-- Given a listening connection, the bytes of messages as `operator<<` leaves them one after the
-- other, and less than a header more, two reads to a message are enough: the connection has read each of them, in order, and nothing of the rest.
pub run_reads-frames :
    (ms : List Message) (fuel : ℕ) (rest : List ℕ) (c : Connection)
    → All Fits ms
    → IsListening c
    → 2 * length ms ≤ fuel
    → length rest < header_length
    → run_reads fuel (frames ms ++ rest) c ≡ (after_messages ms c, rest)
run_reads-frames [] fuel rest c fits l enough short =
    rw frames-nil (run_reads_short fuel rest c l short)
run_reads-frames (m ∷ ms) zero rest c fits l enough short = absurd (omega arith)
run_reads-frames (m ∷ ms) (suc zero) rest c fits l enough short = absurd (omega arith)
run_reads-frames (m ∷ ms) (suc (suc fuel)) rest c fits l enough short =
    rw (frames-cons m ms, append_assoc (frame m) (frames ms) rest)
      (elim (Bool-cases (ltb 0 (size m))) [
        | inl full ↦
            run_reads_full m c fits.0 l fuel (frames ms ++ rest) full
            ∙ run_reads-frames ms fuel rest (after_message m c) fits.1
                (after-IsListening m c fits.0 l) (omega arith) short
        | inr bare ↦
            run_reads_bare m c fits.0 l (suc fuel) (frames ms ++ rest) bare
            ∙ run_reads-frames ms (suc fuel) rest (after_message m c) fits.1
                (after-IsListening m c fits.0 l) (omega arith) short
      ])
