-- ===== src/Connection/Reader/Receipt.antt =====
-- connection_net_interface.hpp: the reads that take one message from the stream.
use networking_cpp_intro.Common.{
  ℕ, suc, ◌*◌, ◌≤◌, ◌≡◌, refl, sym, ap, ◌∙◌, ltb, le→leb, if◌then◌else◌, true, false, List, [], ◌∷◌,
  ◌++◌, append_assoc, none, some, length, length-append, take-append_eq, drop-append_eq, ◌<◌, ◌^◌,
  arith, length-take,
}
use networking_cpp_intro.Message.{Message, size, resize, overwrite}
use networking_cpp_intro.Message.Laws.{length-resize}
use networking_cpp_intro.Message.Wire.{
  header_bytes, header_of_bytes, payload_bytes, frame, frame_of_payload, frame_of_empty,
  length-header_bytes, header_of_bytes-header_bytes,
}
use networking_cpp_intro.Connection.{
  Connection, AsyncOp, reading_header, reading_payload, server, client, start, on_read_header,
  on_read_payload, add_to_incoming_msg_queue,
}
use networking_cpp_intro.Connection.Pending.{is_reading, select}
use networking_cpp_intro.Connection.Reader.{first_read, drop_read, buffer_size, fill, run_reads}

-- What arrives of a message, where the receiver's buffer held `tmp`.
abbrev pub arrive : Message → Message → Message
arrive tmp m = record {
  header = m.header;
  payload =
      if ltb 0 m.header.size
      then overwrite 0 (payload_bytes m) (resize m.header.size tmp.payload)
      else tmp.payload;
}

-- The connection after it has read one message.
abbrev pub after_message : Message → Connection → Connection
after_message m c = record c {
  in_msg_queue =
      c.in_msg_queue
      ++ record {
        remote = elim c.owner [ server ↦ some c.self | client ↦ none ];
        msg = arrive c.tmp_input_msg m;
      }
        ∷ [];
  tmp_input_msg = arrive c.tmp_input_msg m;
  pending = drop_read c.pending ++ reading_header ∷ [];
}

-- A message as `operator<<` leaves it, with fields that fit.
pub record Fits (m : Message) : Type 0 where
  pub id_fits : m.header.id < 2 ^ 32
  pub size_fits : m.header.size < 2 ^ 32
  pub stated : m.header.size ≡ size m
  pub whole : length m.payload ≡ 4 * size m

-- No read but that of a header is pending.
abbrev pub IsListening : Connection → Type 0
IsListening c = select is_reading c.pending ≡ reading_header ∷ []

pub first_read-select :
    (ops : List AsyncOp) (op : AsyncOp) (rest : List AsyncOp)
    → select is_reading ops ≡ op ∷ rest
    → first_read ops ≡ some op
first_read-select [] op rest h = cc
first_read-select (x ∷ ops) op rest h = ground (arith, first_read-select ops op rest)

pub select-drop_read :
    (ops : List AsyncOp) (op : AsyncOp) (rest : List AsyncOp)
    → select is_reading ops ≡ op ∷ rest
    → select is_reading (drop_read ops) ≡ rest
select-drop_read [] op rest h = cc
select-drop_read (x ∷ ops) op rest h = ground (arith, select-drop_read ops op rest)

-- A read that is started when none is pending is the next to complete.
drop_read-start :
    (ops : List AsyncOp) (op : AsyncOp)
    → is_reading op ≡ true
    → select is_reading ops ≡ []
    → (first_read (ops ++ op ∷ []) ≡ some op)
      × (drop_read (ops ++ op ∷ []) ≡ ops)
      × (select is_reading (ops ++ op ∷ []) ≡ op ∷ [])
drop_read-start [] op h e = ground arith
drop_read-start (x ∷ ops) op h e = ground (arith, drop_read-start ops op h)

-- One read completes.
run_reads_step :
    (fuel : ℕ) (op : AsyncOp) (bytes rest : List ℕ) (c : Connection)
    → first_read c.pending ≡ some op
    → length bytes ≡ buffer_size op c
    → run_reads (suc fuel) (bytes ++ rest) c ≡ run_reads fuel rest (fill op bytes c)
unfolding run_reads
run_reads_step fuel op bytes rest c f n =
    rw
      (
        f,
        run_reads,
        take-append_eq (buffer_size op c) bytes rest (sym n),
        drop-append_eq (buffer_size op c) bytes rest (sym n),
        le→leb (buffer_size op c) (length (bytes ++ rest)) enough,
      )
      refl
  where
    enough : buffer_size op c ≤ length (bytes ++ rest)
    enough = omega (arith, length-append bytes rest)

-- The connection after it has read the header of a message with a payload.
abbrev pub after_header : Message → Connection → Connection
after_header m c = start reading_payload (record c {
  pending = drop_read c.pending;
  tmp_input_msg = record {
    header = m.header;
    payload = resize m.header.size c.tmp_input_msg.payload;
  };
})

module _ (m : Message) (c : Connection) (fits : Fits m) where
  same_header : header_of_bytes (header_bytes m.header) ≡ m.header
  same_header = header_of_bytes-header_bytes m.header fits.id_fits fits.size_fits

  pub fill_header_full :
      ltb 0 m.header.size ≡ true → fill reading_header (header_bytes m.header) c ≡ after_header m c
  unfolding on_read_header
  fill_header_full h = rw (same_header, h) refl

  pub fill_header_bare :
      ltb 0 m.header.size ≡ false
      → fill reading_header (header_bytes m.header) c ≡ after_message m c
  unfolding on_read_header add_to_incoming_msg_queue
  fill_header_bare h = rw (same_header, h) refl

  fill_payload :
      IsListening c
      → ltb 0 m.header.size ≡ true
      → fill reading_payload (payload_bytes m) (after_header m c) ≡ after_message m c
  unfolding on_read_payload add_to_incoming_msg_queue
  fill_payload l h =
      rw
        (
          h,
          (drop_read-start (drop_read c.pending) reading_payload refl
              (select-drop_read c.pending reading_header [] l)).1,
        )
        refl

module _ (m : Message) (c : Connection) (fits : Fits m) (l : IsListening c) where
  header_first : first_read c.pending ≡ some reading_header
  header_first = first_read-select c.pending reading_header [] l

  payload_first :
      (first_read (after_header m c).pending ≡ some reading_payload)
      × (length (payload_bytes m) ≡ buffer_size reading_payload (after_header m c))
  unfolding payload_bytes
  payload_first = (
    (drop_read-start (drop_read c.pending) reading_payload refl
        (select-drop_read c.pending reading_header [] l)).0,
    omega (
      arith,
      length-take (size m) m.payload,
      length-resize m.header.size c.tmp_input_msg.payload,
      fits.stated,
      fits.whole,
    ),
  )

  pub run_reads_full :
      (fuel : ℕ) (rest : List ℕ)
      → ltb 0 (size m) ≡ true
      → run_reads (suc (suc fuel)) (frame m ++ rest) c ≡ run_reads fuel rest (after_message m c)
  run_reads_full fuel rest full =
      rw (frame_of_payload m full, append_assoc (header_bytes m.header) (payload_bytes m) rest)
        (run_reads_step (suc fuel) reading_header (header_bytes m.header) (payload_bytes m ++ rest)
            c header_first (length-header_bytes m.header)
          ∙ ap (run_reads (suc fuel) (payload_bytes m ++ rest))
              (fill_header_full m c fits stated_full)
          ∙ run_reads_step fuel reading_payload (payload_bytes m) rest (after_header m c)
              payload_first.0 payload_first.1
          ∙ ap (run_reads fuel rest) (fill_payload m c fits l stated_full))
    where
      stated_full : ltb 0 m.header.size ≡ true
      stated_full = rw fits.stated full

  pub run_reads_bare :
      (fuel : ℕ) (rest : List ℕ)
      → ltb 0 (size m) ≡ false
      → run_reads (suc fuel) (frame m ++ rest) c ≡ run_reads fuel rest (after_message m c)
  run_reads_bare fuel rest bare = rw (frame_of_empty m bare) (
      run_reads_step fuel reading_header (header_bytes m.header) rest c header_first
        (length-header_bytes m.header)
      ∙ ap (run_reads fuel rest) (fill_header_bare m c fits (rw fits.stated bare)))

  pub after-IsListening : IsListening (after_message m c)
  after-IsListening =
      (drop_read-start (drop_read c.pending) reading_header refl
        (select-drop_read c.pending reading_header [] l)).2
