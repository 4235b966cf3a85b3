-- ===== src/Connection/Channel/Delivery.antt =====
-- connection_net_interface.hpp: what one side sends is what the other side gets.
use networking_cpp_intro.Common.{
  ℕ, ◌≡◌, refl, sym, ap, ◌∙◌, subst, ltb, true, List, [], ◌∷◌, ◌++◌, append_assoc, some, length,
  length-append, length-take, take, drop, take-append_eq, drop-append_eq, arith, if◌then◌else◌, All,
  eq_of_some,
}
use networking_cpp_intro.Message.{Message, size}
use networking_cpp_intro.Message.Wire.{
  header_length, header_bytes, payload_bytes, frame, frames, frames-append, frames-nil, frames-cons,
  frame_of_payload, length-header_bytes,
}
use networking_cpp_intro.Connection.{Connection, AsyncOp, reading_header, reading_payload}
use networking_cpp_intro.Connection.Pending.{is_reading, select}
use networking_cpp_intro.Connection.Reader.{first_read, buffer_size, fill}
use networking_cpp_intro.Connection.Reader.Receipt.{Fits, first_read-select, after_header}
use networking_cpp_intro.Connection.Reader.Arrival.{after_messages}
use networking_cpp_intro.Connection.Channel.Reception.{SameReader}
use networking_cpp_intro.Connection.Channel.Arrival.{
  Reception, at_header, at_payload, stopped, header_read, payload_read, header_kept,
}

-- The front of two lists that agree.
same_front : (xs ys zs ws : List ℕ) → length xs ≡ length ys → xs ++ zs ≡ ys ++ ws → xs ≡ ys
same_front xs ys zs ws n e =
    sym (take-append_eq (length xs) xs zs refl)
    ∙ ap (take (length xs)) e
    ∙ take-append_eq (length xs) ys ws n

same_back : (xs zs ws : List ℕ) → xs ++ zs ≡ xs ++ ws → zs ≡ ws
same_back xs zs ws e =
    sym (drop-append_eq (length xs) xs zs refl)
    ∙ ap (drop (length xs)) e
    ∙ drop-append_eq (length xs) xs ws refl

-- The next message, whose header a read has just been given.
next_header :
    (rest : List Message) (bytes more : List ℕ)
    → length bytes ≡ header_length
    → bytes ++ more ≡ frames rest
    → (m : Message) × (ms : List Message) × (rest ≡ m ∷ ms) × (bytes ≡ header_bytes m.header)
unfolding frame header_bytes payload_bytes
next_header [] bytes more n e =
    absurd (omega (arith, n, length-append bytes more, ap length (e ∙ frames-nil)))
next_header (m ∷ ms) bytes more n e = (
  m,
  ms,
  refl,
  same_front bytes (header_bytes m.header) more
      ((if ltb 0 (size m) then payload_bytes m else []) ++ frames ms)
      (n ∙ sym (length-header_bytes m.header))
      (cc (
        e,
        frames-cons m ms,
        append_assoc (header_bytes m.header) (if ltb 0 (size m) then payload_bytes m else [])
            (frames ms),
      )),
)

pub All-middle : (done rest : List Message) (m : Message) → All Fits (done ++ m ∷ rest) → Fits m
All-middle [] rest m h = h.0
All-middle (x ∷ done) rest m h = All-middle done rest m h.1

-- The bytes that the next read gets stand at the front of what the reader has not taken of the messages.
module _ (sub done ms : List Message) (s : sub ≡ done ++ ms) where
  pub unread :
      (front more : List ℕ)
      → (frames done ++ front) ++ more ≡ frames sub
      → front ++ more ≡ frames ms
  unread front more e =
      same_back (frames done) (front ++ more) (frames ms)
        (sym (append_assoc (frames done) front more) ∙ e ∙ ap frames s ∙ frames-append done ms)

pub unread_payload :
    (sub done : List Message) (m : Message) (rest : List Message)
    → sub ≡ done ++ m ∷ rest
    → ltb 0 (size m) ≡ true
    → (bytes more : List ℕ) → ((frames done ++ header_bytes m.header) ++ bytes) ++ more ≡ frames sub
    → bytes ++ more ≡ payload_bytes m ++ frames rest
unread_payload sub done m rest s full bytes more e =
    same_back (header_bytes m.header) (bytes ++ more) (payload_bytes m ++ frames rest) (
      sym (append_assoc (header_bytes m.header) bytes more)
      ∙ unread sub done (m ∷ rest) s (header_bytes m.header ++ bytes) more
          (ap (λ x. x ++ more) (sym (append_assoc (frames done) (header_bytes m.header) bytes)) ∙ e)
      ∙ frames-cons m rest
      ∙ ap (λ x. x ++ frames rest) (frame_of_payload m full)
      ∙ append_assoc (header_bytes m.header) (payload_bytes m) (frames rest))

pub first_read-none :
    (ops : List AsyncOp) (op : AsyncOp) → select is_reading ops ≡ [] → first_read ops ≡ some op → ⊥
first_read-none [] op e f = cc
first_read-none (x ∷ ops) op e f = ground (arith, first_read-none ops op)

module _ (start : Connection) (sub : List Message) (fit : All Fits sub) (c : Connection)
    (bytes more : List ℕ) where
  next_header_read :
      (done ms : List Message)
      → sub ≡ done ++ ms
      → SameReader c (after_messages done start)
      → select is_reading c.pending ≡ reading_header ∷ []
      → length bytes ≡ header_length
      → bytes ++ more ≡ frames ms
      → Reception start (fill reading_header bytes c) sub (frames done ++ bytes)
  next_header_read done ms s q w n e =
      let (m, rest, ms_eq, bytes_eq) = next_header ms bytes more n e in
      let sub_eq : sub ≡ done ++ m ∷ rest = s ∙ ap (λ x. done ++ x) ms_eq in
      rw (bytes_eq, sub_eq)
        (header_read start done m rest (All-middle done rest m (subst (All Fits) sub_eq fit)) c q w)

  next_payload_read :
      (done : List Message) (m : Message) (rest : List Message)
      → sub ≡ done ++ m ∷ rest
      → SameReader c (after_header m (after_messages done start))
      → select is_reading c.pending ≡ reading_payload ∷ []
      → ltb 0 (size m) ≡ true
      → length bytes ≡ size c.tmp_input_msg
      → bytes ++ more ≡ payload_bytes m ++ frames rest
      → Reception start
          (fill reading_payload bytes c)
          sub
          ((frames done ++ header_bytes m.header) ++ bytes)
  unfolding payload_bytes
  next_payload_read done m rest s q w full n e =
      let fits : Fits m = All-middle done rest m (subst (All Fits) s fit) in
      let (h, l) = header_kept start done m rest fits c q in
      let bytes_eq : bytes ≡ payload_bytes m =
        same_front bytes (payload_bytes m) more (frames rest)
          (omega (arith, n, l, length-take (size m) m.payload, fits.whole)) e in
      rw (bytes_eq, s) (payload_read start done m rest fits c q full w)

-- A read of a message gets its bytes.
pub fill-Reception :
    {start c : Connection} {sub : List Message} {taken : List ℕ} (op : AsyncOp)
    (bytes more : List ℕ)
    → All Fits sub
    → (taken ++ bytes) ++ more ≡ frames sub
    → first_read c.pending ≡ some op
    → length bytes ≡ buffer_size op c
    → Reception start c sub taken
    → Reception start (fill op bytes c) sub (taken ++ bytes)
fill-Reception {start} {c} {sub} op bytes more fit e f n (at_header done ms s q w t) =
    let is : op ≡ reading_header =
      eq_of_some (sym f ∙ first_read-select c.pending reading_header [] w) in
    rw (is, t)
      (next_header_read start sub fit c bytes more done ms s q w (n ∙ ap (λ x. buffer_size x c) is)
        (unread sub done ms s bytes more (cc (e, t))))
fill-Reception {start} {c} {sub} op bytes more fit e f n (at_payload done m rest s q w t full) =
    let is : op ≡ reading_payload =
      eq_of_some (sym f ∙ first_read-select c.pending reading_payload [] w) in
    rw (is, t)
      (next_payload_read start sub fit c bytes more done m rest s q w full
        (n ∙ ap (λ x. buffer_size x c) is)
        (unread_payload sub done m rest s full bytes more (cc (e, t))))
fill-Reception {c = c} op bytes more fit e f n (stopped done ms s q w) =
    absurd (first_read-none c.pending op w f)
