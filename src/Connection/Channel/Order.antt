-- ===== src/Connection/Channel/Order.antt =====
-- connection_net_interface.hpp: what one side sends is what the other side gets.
use networking_cpp_intro.Common.{
  ℕ, ◌≡◌, refl, sym, ap, ◌∙◌, subst, true, false, List, [], ◌∷◌, ◌++◌, Bool, append_assoc,
  append-nil, some, length, arith, All, All_front,
}
use networking_cpp_intro.Message.{Message}
use networking_cpp_intro.Message.Wire.{frames, frames-nil}
use networking_cpp_intro.Connection.{
  Connection, AsyncOp, connecting, reading_validation_request, sending_validation,
  checking_validation, reading_header, reading_payload, complete, on_read_header, on_read_payload,
}
use networking_cpp_intro.Connection.Steps
use networking_cpp_intro.Connection.Steps.{Link, resumed, submits, send, hang_up, completes}
use networking_cpp_intro.Connection.Pending.{
  is_reading, select, select-resumed, select_of_only, select_not_none,
}
use networking_cpp_intro.Connection.Reader.{first_read, buffer_size, fill}
use networking_cpp_intro.Connection.Reader.Receipt.{Fits, IsListening}
use networking_cpp_intro.Connection.Reader.Arrival.{
  after_messages, arrivals, remote_of, after_messages-arrivals,
}
use networking_cpp_intro.Connection.Writer.Completion.{LinkAccounted}
use networking_cpp_intro.Connection.Writer.Order.{
  IsFresh, Step-Accounted, IsFresh-Accounted, Accounted-IsPrefix,
}
use networking_cpp_intro.Connection.Channel.{
  Channel, Step, is_sending, writer_steps, reader_reads, read_fails, reader_sends, reader_hangs_up,
  reader_completes, Reach, here, next,
}
use networking_cpp_intro.Connection.Channel.Reception.{
  Undisturbed, send_data-Undisturbed, disconnect-Undisturbed, complete-Undisturbed,
}
use networking_cpp_intro.Connection.Channel.Arrival.{
  Reception, at_header, at_payload, stopped, Undisturbed-Reception, Reception-more,
}
use networking_cpp_intro.Connection.Channel.Delivery.{fill-Reception}

-- What was written is what was taken, in front of what is on the wire; and the reader has come a certain way.
pub record IsFaithful (start : Connection) (c : Channel) : Type 0 where
  pub split : c.taken ++ c.wire ≡ c.writer.sent
  pub account : LinkAccounted c.writer
  pub reception : Reception start c.reader c.writer.submitted c.taken

-- A step of the writing side adds to what has been submitted.
Step-submitted :
    {l l' : Link} → Steps.Step l l' → (more : List Message) × (l'.submitted ≡ l.submitted ++ more)
Step-submitted {l} (send m) = ([], sym (append-nil l.submitted))
Step-submitted {l} hang_up = ([], sym (append-nil l.submitted))
Step-submitted {l} (completes before after op failed bytes put c e h) = (submits op, refl)

read-Reception :
    {c : Channel} {start : Connection} (op : AsyncOp) (bytes rest : List ℕ)
    → All Fits c.writer.submitted
    → first_read c.reader.pending ≡ some op
    → c.wire ≡ bytes ++ rest
    → length bytes ≡ buffer_size op c.reader
    → IsFaithful start c
    → Reception start (fill op bytes c.reader) c.writer.submitted (c.taken ++ bytes)
read-Reception {c} op bytes rest fit f w n i =
    let (lost, e) = Accounted-IsPrefix c.writer i.account in
    let taken_of : (c.taken ++ bytes) ++ (rest ++ lost) ≡ frames c.writer.submitted =
      cc (
        e,
        i.split,
        w,
        append_assoc (c.taken ++ bytes) rest lost,
        append_assoc c.taken bytes rest,
      ) in
    fill-Reception op bytes (rest ++ lost) fit taken_of f n i.reception

failed_read :
    (op : AsyncOp) (bytes : List ℕ) (c r : Connection)
    → is_reading op ≡ true
    → complete op true bytes c ≡ some r
    → (r.in_msg_queue ≡ c.in_msg_queue) × (r.pending ≡ c.pending)
unfolding complete on_read_header on_read_payload
failed_read reading_header bytes c r is h = ground arith
failed_read reading_payload bytes c r is h = ground arith
failed_read _ bytes c r is h = absurd (ground arith)

-- A read that fails is the last one.
failed-Reception :
    (before after : List AsyncOp) (op : AsyncOp) (bytes : List ℕ) (c r : Connection)
    {start : Connection} {sub : List Message} {taken : List ℕ}
    → is_reading op ≡ true
    → c.pending ≡ before ++ op ∷ after
    → complete op true bytes (resumed before after c) ≡ some r
    → Reception start c sub taken
    → Reception start r sub taken
failed-Reception before after op bytes c r is e h (at_header done ms s q w t) =
    let (same_queue, same_work) = failed_read op bytes (resumed before after c) r is h in
    let none_left =
      (select_of_only is_reading before after op reading_header is
        (sym (ap (select is_reading) e) ∙ w)).1 in
    stopped done ms s (same_queue ∙ q.same_queue) (ap (select is_reading) same_work ∙ none_left)
failed-Reception before after op bytes c r is e h (at_payload done m rest s q w t full) =
    let (same_queue, same_work) = failed_read op bytes (resumed before after c) r is h in
    let none_left =
      (select_of_only is_reading before after op reading_payload is
        (sym (ap (select is_reading) e) ∙ w)).1 in
    stopped done (m ∷ rest) s (same_queue ∙ q.same_queue)
      (ap (select is_reading) same_work ∙ none_left)
failed-Reception before after op bytes c r is e h (stopped done ms s q w) =
    absurd (select_not_none is_reading before after op is (sym (ap (select is_reading) e) ∙ w))

sending_is_no_read : (op : AsyncOp) → is_sending op ≡ true → is_reading op ≡ false
sending_is_no_read reading_header h = cc
sending_is_no_read reading_payload h = cc
sending_is_no_read _ h = refl

resumed-Undisturbed :
    (before after : List AsyncOp) (op : AsyncOp) (c : Connection)
    → is_sending op ≡ true
    → c.pending ≡ before ++ op ∷ after
    → Undisturbed c (resumed before after c)
resumed-Undisturbed before after op c is e = record {
  same_reader = record {
    same_queue = refl;
    same_message = refl;
    same_owner = refl;
    same_self = refl;
  };
  same_reads =
      select-resumed is_reading before after op (sending_is_no_read op is)
      ∙ sym (ap (select is_reading) e);
}

-- Every step keeps the channel faithful, as long as the messages fit.
Step-IsFaithful :
    {start : Connection} {c d : Channel}
    → Step c d
    → All Fits c.writer.submitted
    → IsFaithful start c
    → IsFaithful start d
Step-IsFaithful {start} {c} (writer_steps w more st e) fit i =
    let (new, sub) = Step-submitted st in
    record {
      split = cc (e, i.split, append_assoc c.taken c.wire more);
      account = Step-Accounted st i.account;
      reception =
          subst (λ x. Reception start c.reader x c.taken) (sym sub)
            (Reception-more new i.reception);
    }
Step-IsFaithful {start} {c} (reader_reads op bytes rest f w n) fit i = record {
  split = cc (w, i.split, append_assoc c.taken bytes rest);
  account = i.account;
  reception = read-Reception op bytes rest fit f w n i;
}
Step-IsFaithful {start} {c} (read_fails before after op bytes r is e h) fit i = record {
  split = i.split;
  account = i.account;
  reception = failed-Reception before after op bytes c.reader r is e h i.reception;
}
Step-IsFaithful {start} {c} (reader_sends m) fit i = record {
  split = i.split;
  account = i.account;
  reception = Undisturbed-Reception (send_data-Undisturbed m c.reader) i.reception;
}
Step-IsFaithful {start} {c} reader_hangs_up fit i = record {
  split = i.split;
  account = i.account;
  reception = Undisturbed-Reception (disconnect-Undisturbed c.reader) i.reception;
}
Step-IsFaithful {start} {c} (reader_completes before after op failed bytes r is e h) fit i =
    record {
      split = i.split;
      account = i.account;
      reception =
          Undisturbed-Reception
            (complete-Undisturbed op failed bytes (resumed before after c.reader) r is h)
            (Undisturbed-Reception (resumed-Undisturbed before after op c.reader is e) i.reception);
    }

-- Work that belongs to the handshake, whose bytes go over the same stream.
abbrev pub is_handshake : AsyncOp → Bool
is_handshake connecting = true
is_handshake reading_validation_request = true
is_handshake sending_validation = true
is_handshake checking_validation = true
is_handshake _ = false

-- Both sides after the handshake, with nothing written yet.
pub record IsNew (c : Channel) : Type 0 where
  pub shaken : select is_handshake c.writer.conn.pending ≡ []
  pub fresh : IsFresh c.writer
  pub listening : IsListening c.reader
  pub nothing_taken : c.taken ≡ []
  pub empty_wire : c.wire ≡ []

IsNew-IsFaithful : {c : Channel} → IsNew c → IsFaithful c.reader c
IsNew-IsFaithful {c} n = record {
  split = cc (n.nothing_taken, n.empty_wire, n.fresh.nothing_sent);
  account = IsFresh-Accounted n.fresh;
  reception =
      at_header [] [] n.fresh.nothing_submitted
        (record { same_queue = refl; same_message = refl; same_owner = refl; same_self = refl })
        n.listening (n.nothing_taken ∙ sym frames-nil);
}

submitted_only_grows :
    {c d : Channel}
    → Step c d
    → (more : List Message) × (d.writer.submitted ≡ c.writer.submitted ++ more)
submitted_only_grows {c} (writer_steps w more st e) = Step-submitted st
submitted_only_grows {c} _ = ([], sym (append-nil c.writer.submitted))

pub Reach-IsFaithful :
    {s c : Channel} → IsNew s → Reach s c → All Fits c.writer.submitted → IsFaithful s.reader c
Reach-IsFaithful n here fit = IsNew-IsFaithful n
Reach-IsFaithful n (next {d} r st) fit =
    let (more, e) = submitted_only_grows st in
    let fit_before = All_front Fits d.writer.submitted more (subst (All Fits) e fit) in
    Step-IsFaithful st fit_before (Reach-IsFaithful n r fit_before)

Reception-IsPrefix :
    {start c : Connection} {sub : List Message} {taken : List ℕ}
    → Reception start c sub taken
    → (done rest : List Message) × (sub ≡ done ++ rest)
      × (c.in_msg_queue ≡ (after_messages done start).in_msg_queue)
Reception-IsPrefix (at_header done ms s q w t) = (done, ms, s, q.same_queue)
Reception-IsPrefix (at_payload done m rest s q w t full) = (done, m ∷ rest, s, q.same_queue)
Reception-IsPrefix (stopped done ms s q w) = (done, ms, s, q)

-- From two sides after the handshake with nothing written, whatever one side submits and the network
-- and both sides do meanwhile, hang-ups, failed reads, and failed writes that put any front of their
-- buffer on the socket included: if the messages submitted fit then the queue of the other side has
-- gained exactly one entry for each of the first of them, in the order in which they were submitted,
-- none lost, repeated or mixed with another. An entry has the header of its message. Its payload is the
-- receiver's buffer as the message before left it: for a message that states no element that buffer as
-- it is, and else resized to the stated number of elements of four bytes, with as many bytes
-- as there are elements in front replaced by the first ones of the message's payload.
pub delivered_in_order :
    {s c : Channel}
    → IsNew s
    → Reach s c
    → All Fits c.writer.submitted
    → (done rest : List Message) × (c.writer.submitted ≡ done ++ rest)
      × (c.reader.in_msg_queue
          ≡ s.reader.in_msg_queue ++ arrivals (remote_of s.reader) s.reader.tmp_input_msg done)
delivered_in_order {s} n r fit =
    let (done, rest, e, q) = Reception-IsPrefix (Reach-IsFaithful n r fit).reception in
    (done, rest, e, q ∙ after_messages-arrivals done s.reader)
