-- ===== src/Connection/Channel/Quiescence.antt =====
-- connection_net_interface.hpp: what has arrived when both sides have come to rest.
use networking_cpp_intro.Common.{
  ℕ, ◌<◌, ◌≡◌, refl, sym, ap, ◌∙◌, subst, ltb, true, List, [], ◌∷◌, ◌++◌, append_assoc, append-nil,
  some, length, length-append, length-take, arith, if◌then◌else◌, All, eq_of_some,
}
use networking_cpp_intro.Message.{Message, size}
use networking_cpp_intro.Message.Wire.{
  header_length, header_bytes, payload_bytes, frame, frames, frames-cons, length-header_bytes,
}
use networking_cpp_intro.Connection.{Connection, AsyncOp, reading_header, reading_payload}
use networking_cpp_intro.Connection.Pending.{is_writing, select}
use networking_cpp_intro.Connection.Reader.{first_read, buffer_size}
use networking_cpp_intro.Connection.Reader.Receipt.{Fits, first_read-select}
use networking_cpp_intro.Connection.Writer.Order.{Accounted-idle}
use networking_cpp_intro.Connection.Channel.{Channel, Reach}
use networking_cpp_intro.Connection.Reader.Arrival.{
  after_messages, arrivals, remote_of, after_messages-arrivals,
}
use networking_cpp_intro.Connection.Channel.Arrival.{
  Reception, at_header, at_payload, stopped, header_kept,
}
use networking_cpp_intro.Connection.Channel.Delivery.{
  unread, unread_payload, first_read-none, All-middle,
}
use networking_cpp_intro.Connection.Channel.Order.{IsNew, Reach-IsFaithful}

few_bytes :
    (ms : List Message) (wire : List ℕ) → wire ≡ frames ms → length wire < header_length → ms ≡ []
unfolding frame header_bytes payload_bytes
few_bytes [] wire e few = refl
few_bytes (m ∷ ms) wire e few = absurd (
    omega (
      arith,
      few,
      ap length (
          e
          ∙ frames-cons m ms
          ∙ append_assoc (header_bytes m.header) (if ltb 0 (size m) then payload_bytes m else [])
              (frames ms)),
      length-append (header_bytes m.header)
          ((if ltb 0 (size m) then payload_bytes m else []) ++ frames ms),
      length-header_bytes m.header,
    ))

length-payload_bytes : (m : Message) → Fits m → length (payload_bytes m) ≡ size m
unfolding payload_bytes
length-payload_bytes m fits = omega (arith, length-take (size m) m.payload, fits.whole)

-- A reader that waits for more than the rest of the bytes has all the messages.
nothing_missing :
    {start c : Connection} {sub : List Message} {taken : List ℕ} (op : AsyncOp) (wire : List ℕ)
    → All Fits sub
    → taken ++ wire ≡ frames sub
    → first_read c.pending ≡ some op
    → length wire < buffer_size op c
    → Reception start c sub taken
    → c.in_msg_queue ≡ (after_messages sub start).in_msg_queue
nothing_missing {start} {c} {sub} op wire fit e f few (at_header done ms s q w t) =
    let is = eq_of_some (sym f ∙ first_read-select c.pending reading_header [] w) in
    let rest_eq = unread sub done ms s [] wire (cc (e, t, append-nil (frames done))) in
    let none_left = few_bytes ms wire rest_eq (subst (λ x. length wire < buffer_size x c) is few) in
    let all_done : sub ≡ done = cc (s, none_left, append-nil done) in
    q.same_queue ∙ ap (λ x. (after_messages x start).in_msg_queue) (sym all_done)
nothing_missing {start} {c} {sub} op wire fit e f few (at_payload done m rest s q w t full) =
    let is = eq_of_some (sym f ∙ first_read-select c.pending reading_payload [] w) in
    let fits : Fits m = All-middle done rest m (subst (All Fits) s fit) in
    let rest_eq =
      unread_payload sub done m rest s full [] wire
        (cc (e, t, append-nil (frames done ++ header_bytes m.header))) in
    absurd (
      omega (
        arith,
        subst (λ x. length wire < buffer_size x c) is few,
        (header_kept start done m rest fits c q).1,
        ap length rest_eq,
        length-append (payload_bytes m) (frames rest),
        length-payload_bytes m fits,
      ))
nothing_missing {c = c} op wire fit e f few (stopped done ms s q w) =
    absurd (first_read-none c.pending op w f)

-- In any state that is reached from two sides after the handshake with nothing written, if the messages
-- submitted fit, the writing side's socket is open with no write in flight, and the reading side waits
-- for more bytes than are on the way, then the queue of the reading side has gained exactly one entry
-- for every message submitted, in order, and nothing waits to be written. An entry has the header of its
-- message. Its payload is the receiver's buffer as the message before left it: for a message that states
-- no element that buffer as it is, and else resized to the stated number of elements of four bytes, with
-- as many bytes as there are elements in front replaced by the first ones of the message's payload.
pub all_delivered :
    {s c : Channel} (op : AsyncOp)
    → IsNew s
    → Reach s c
    → All Fits c.writer.submitted
    → c.writer.conn.is_open ≡ true
    → select is_writing c.writer.conn.pending ≡ []
    → first_read c.reader.pending ≡ some op
    → length c.wire < buffer_size op c.reader
    → (c.writer.conn.out_msg_queue ≡ [])
      × (c.reader.in_msg_queue
          ≡ s.reader.in_msg_queue
            ++ arrivals (remote_of s.reader) s.reader.tmp_input_msg c.writer.submitted)
all_delivered {s} {c} op n r fit o idle f few =
    let i = Reach-IsFaithful n r fit in
    let (all_sent, empty) = Accounted-idle c.writer i.account o idle in
    (
      empty,
      nothing_missing op c.wire fit (i.split ∙ all_sent) f few i.reception
          ∙ after_messages-arrivals c.writer.submitted s.reader,
    )
