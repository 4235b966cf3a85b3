-- ===== src/Connection/Channel/Arrival.antt =====
-- connection_net_interface.hpp: what the bytes of a header and of a payload do to the reading side of a channel.
use networking_cpp_intro.Common.{
  ℕ, ◌*◌, ◌≡◌, refl, sym, ap, subst, ◌∙◌, ltb, true, false, List, [], ◌∷◌, ◌++◌, append_assoc,
  length, some, none, arith, Bool-cases, inl, inr,
}
use networking_cpp_intro.Message.{Message, size, overwrite}
use networking_cpp_intro.Message.Laws.{length-resize}
use networking_cpp_intro.Message.Wire.{
  header_bytes, payload_bytes, frames, frames-snoc, frame_of_payload, frame_of_empty,
}
use networking_cpp_intro.Connection.{
  Connection, AsyncOp, OwnedMessage, Owner, server, client, reading_header, reading_payload,
  on_read_payload, add_to_incoming_msg_queue,
}
use networking_cpp_intro.Connection.Pending.{is_reading, select, select-append}
use networking_cpp_intro.Connection.Reader.{drop_read, fill}
use networking_cpp_intro.Connection.Reader.Receipt.{
  Fits, arrive, select-drop_read, after_header, after_message, fill_header_full, fill_header_bare,
}
use networking_cpp_intro.Connection.Reader.Arrival.{after_messages, after_messages-snoc}
use networking_cpp_intro.Connection.Channel.Reception.{SameReader, SameReader-trans, Undisturbed}

-- How far the reading side has come since it was `start`: the messages that it has read whole (`done`),
-- in front of those to come (`rest`), and the bytes taken for them.
pub data Reception (start c : Connection) (submitted : List Message) (taken : List ℕ) : Type 0 where
  at_header :
      (done rest : List Message)
      → submitted ≡ done ++ rest
      → SameReader c (after_messages done start)
      → select is_reading c.pending ≡ reading_header ∷ []
      → taken ≡ frames done
      → Reception start c submitted taken
  at_payload :
      (done : List Message) (m : Message) (rest : List Message)
      → submitted ≡ done ++ m ∷ rest
      → SameReader c (after_header m (after_messages done start))
      → select is_reading c.pending ≡ reading_payload ∷ []
      → taken ≡ frames done ++ header_bytes m.header
      → ltb 0 (size m) ≡ true
      → Reception start c submitted taken
  stopped :
      (done rest : List Message)
      → submitted ≡ done ++ rest
      → c.in_msg_queue ≡ (after_messages done start).in_msg_queue
      → select is_reading c.pending ≡ []
      → Reception start c submitted taken

pub Undisturbed-Reception :
    {start c c' : Connection} {submitted : List Message} {taken : List ℕ}
    → Undisturbed c c'
    → Reception start c submitted taken
    → Reception start c' submitted taken
Undisturbed-Reception u (at_header done rest s q w t) =
    at_header done rest s (SameReader-trans u.same_reader q) (u.same_reads ∙ w) t
Undisturbed-Reception u (at_payload done m rest s q w t full) =
    at_payload done m rest s (SameReader-trans u.same_reader q) (u.same_reads ∙ w) t full
Undisturbed-Reception u (stopped done rest s q w) =
    stopped done rest s (u.same_reader.same_queue ∙ q) (u.same_reads ∙ w)

-- More messages are submitted.
pub Reception-more :
    {start c : Connection} {submitted : List Message} {taken : List ℕ} (more : List Message)
    → Reception start c submitted taken
    → Reception start c (submitted ++ more) taken
Reception-more more (at_header done rest s q w t) =
    at_header done (rest ++ more) (cc (s, append_assoc done rest more)) q w t
Reception-more more (at_payload done m rest s q w t full) =
    at_payload done m (rest ++ more) (cc (s, append_assoc done (m ∷ rest) more)) q w t full
Reception-more more (stopped done rest s q w) =
    stopped done (rest ++ more) (cc (s, append_assoc done rest more)) q w

select-start_read :
    (ops : List AsyncOp) (op : AsyncOp)
    → is_reading op ≡ true
    → select is_reading ops ≡ []
    → select is_reading (ops ++ op ∷ []) ≡ op ∷ []
select-start_read ops op is none_ = ground (arith, select-append is_reading ops (op ∷ []))

-- A queue that has gained the entry of a message.
abbrev with_entry : List OwnedMessage → Message → Owner → ℕ → List OwnedMessage
with_entry queue msg owner self =
    queue ++ record { remote = elim owner [ server ↦ some self | client ↦ none ]; msg = msg } ∷ []

with_entry-same :
    {q q' : List OwnedMessage} {msg msg' : Message} {o o' : Owner} {self self' : ℕ}
    → q ≡ q'
    → msg ≡ msg'
    → o ≡ o'
    → self ≡ self'
    → with_entry q msg o self ≡ with_entry q' msg' o' self'
with_entry-same {q} {q'} {msg} {msg'} {o} {o'} {self} {self'} hq hm ho hs =
    ap (λ x. with_entry x msg o self) hq
    ∙ ap (λ x. with_entry q' x o self) hm
    ∙ ap (λ x. with_entry q' msg' x self) ho
    ∙ ap (λ x. with_entry q' msg' o' x) hs

-- Two readers that have read the same read the same message next.
after_message-SameReader :
    (m : Message) {c d : Connection}
    → SameReader c d
    → SameReader (after_message m c) (after_message m d)
after_message-SameReader m {c} {d} h = record {
  same_queue =
      with_entry-same h.same_queue (ap (λ x. arrive x m) h.same_message) h.same_owner h.same_self;
  same_message = ap (λ x. arrive x m) h.same_message;
  same_owner = h.same_owner;
  same_self = h.same_self;
}

after_header-SameReader :
    (m : Message) {c d : Connection}
    → SameReader c d
    → SameReader (after_header m c) (after_header m d)
after_header-SameReader m {c} {d} h = record {
  same_queue = h.same_queue;
  same_message = rw h.same_message refl;
  same_owner = h.same_owner;
  same_self = h.same_self;
}

-- A message with the payload that was read.
abbrev stored : Message → Message → Message
stored m tmp = record tmp { payload = overwrite 0 (payload_bytes m) tmp.payload }

-- A read that is given the bytes of a header.
module _ (start : Connection) (done : List Message) (m : Message) (rest : List Message)
    (fits : Fits m) (c : Connection) where
  after_header-Reception :
      SameReader c (after_messages done start)
      → select is_reading (drop_read c.pending) ≡ []
      → ltb 0 m.header.size ≡ true
      → Reception start (after_header m c) (done ++ m ∷ rest) (frames done ++ header_bytes m.header)
  after_header-Reception q left full =
      at_payload done m rest refl (after_header-SameReader m q)
        (select-start_read (drop_read c.pending) reading_payload refl left) refl
        (rw (sym fits.stated) full)

  after_message-Reception :
      SameReader c (after_messages done start)
      → select is_reading (drop_read c.pending) ≡ []
      → ltb 0 m.header.size ≡ false
      → Reception start
          (after_message m c)
          (done ++ m ∷ rest)
          (frames done ++ header_bytes m.header)
  after_message-Reception q left bare =
      at_header (done ++ m ∷ []) rest (sym (append_assoc done (m ∷ []) rest))
        (rw (after_messages-snoc done m start) (after_message-SameReader m q))
        (select-start_read (drop_read c.pending) reading_header refl left)
        (sym (
          frames-snoc done m
          ∙ ap (λ x. frames done ++ x) (frame_of_empty m (rw (sym fits.stated) bare))))

  pub header_read :
      SameReader c (after_messages done start)
      → select is_reading c.pending ≡ reading_header ∷ []
      → Reception start
          (fill reading_header (header_bytes m.header) c)
          (done ++ m ∷ rest)
          (frames done ++ header_bytes m.header)
  header_read q w =
      let left = select-drop_read c.pending reading_header [] w in
      elim (Bool-cases (ltb 0 m.header.size)) [
        | inl full ↦
            subst (λ x. Reception start x (done ++ m ∷ rest) (frames done ++ header_bytes m.header))
              (sym (fill_header_full m c fits full)) (after_header-Reception q left full)
        | inr bare ↦
            subst (λ x. Reception start x (done ++ m ∷ rest) (frames done ++ header_bytes m.header))
              (sym (fill_header_bare m c fits bare)) (after_message-Reception q left bare)
      ]

  -- The header that came before, and the room that it made.
  pub header_kept :
      SameReader c (after_header m (after_messages done start))
      → (c.tmp_input_msg.header ≡ m.header) × (length c.tmp_input_msg.payload ≡ 4 * size m)
  header_kept q =
      let room = length-resize m.header.size (after_messages done start).tmp_input_msg.payload in
      (
        ap (λ x. x.header) q.same_message,
        ap (λ x. length x.payload) q.same_message ∙ omega (arith, room, fits.stated),
      )

  -- A payload that is stored makes the message that arrives.
  stored-arrive :
      (c' : Connection)
      → ltb 0 (size m) ≡ true
      → stored m (after_header m (after_messages done c')).tmp_input_msg
        ≡ arrive (after_messages done c').tmp_input_msg m
  stored-arrive c' full =
      let stated_full : ltb 0 m.header.size ≡ true = rw fits.stated full in rw stated_full refl

  -- A read that is given the bytes of the payload whose header came before.
  payload-SameReader :
      SameReader c (after_header m (after_messages done start))
      → ltb 0 (size m) ≡ true
      → SameReader
          (fill reading_payload (payload_bytes m) c)
          (after_message m (after_messages done start))
  unfolding on_read_payload add_to_incoming_msg_queue
  payload-SameReader q full =
      let whole = ap (stored m) q.same_message ∙ stored-arrive start full in
      record {
        same_queue = with_entry-same q.same_queue whole q.same_owner q.same_self;
        same_message = whole;
        same_owner = q.same_owner;
        same_self = q.same_self;
      }

  pub payload_read :
      SameReader c (after_header m (after_messages done start))
      → ltb 0 (size m) ≡ true
      → select is_reading c.pending ≡ reading_payload ∷ []
      → Reception start
          (fill reading_payload (payload_bytes m) c)
          (done ++ m ∷ rest)
          ((frames done ++ header_bytes m.header) ++ payload_bytes m)
  unfolding on_read_payload add_to_incoming_msg_queue
  payload_read q full w =
      at_header (done ++ m ∷ []) rest (sym (append_assoc done (m ∷ []) rest))
        (rw (after_messages-snoc done m start) (payload-SameReader q full))
        (select-start_read (drop_read c.pending) reading_header refl
          (select-drop_read c.pending reading_payload [] w))
        (cc (
          frames-snoc done m,
          frame_of_payload m full,
          append_assoc (frames done) (header_bytes m.header) (payload_bytes m),
        ))
