-- ===== src/Connection/Writer/Progress.antt =====
-- connection_net_interface.hpp: `SendData`'s lambda, `WriteHeader` and `writePayload` keep the
-- account of the bytes sent, and never ask an empty queue for its front.
use networking_cpp_intro.Common.{
  ℕ, ◌≡◌, refl, sym, if◌then◌else◌, ltb, Bool, true, false, Bool-cases, inl, inr, List, [], ◌∷◌,
  ◌++◌, append-nil, append_assoc, take, drop, take-append-drop, ap, ◌∙◌, Option, some, arith,
}
use networking_cpp_intro.Message.{Message, size}
use networking_cpp_intro.Message.Wire.{
  header_bytes, payload_bytes, frame, frames, frames-snoc, frames-cons, frames-nil, frame_of_header,
  frame_of_payload, frame_of_empty,
}
use networking_cpp_intro.Connection.{
  Connection, writing_header, writing_payload, start, close, on_posted_send, pop_and_continue,
  on_write_header, on_write_payload,
}
use networking_cpp_intro.Connection.Pending.{is_writing, select, select-append}
use networking_cpp_intro.Connection.Writer.Account.{
  Account, Accounted, idle, at_header, at_payload, broken,
}

-- A new message is owed behind all others.
owed-snoc : (s x f o y : List ℕ) → s ++ (x ++ f) ≡ o → s ++ (x ++ (f ++ y)) ≡ o ++ y
owed-snoc s x f o y h = rw (← h) (simp append_assoc)

pub on_posted_send-Accounted :
    (m : Message) (c : Connection) (s : List ℕ) (sub : List Message)
    → Accounted c s sub
    → Accounted (on_posted_send m c) s (sub ++ m ∷ [])
unfolding on_posted_send
on_posted_send-Accounted m c s sub (idle w q e) =
    at_header m [] (ground (arith, select-append is_writing c.pending (writing_header ∷ [])))
      (ground arith) (rw (frames-snoc, frames-nil, append-nil, e))
on_posted_send-Accounted m c s sub (at_header n rest w q e) =
    at_header n (rest ++ m ∷ []) (ground arith) (ground arith) (
      rw (frames-snoc rest m, frames-snoc sub m)
        (owed-snoc s (frame n) (frames rest) (frames sub) (frame m) e))
on_posted_send-Accounted m c s sub (at_payload n rest w q p e) =
    at_payload n (rest ++ m ∷ []) (ground arith) (ground arith) p (
      rw (frames-snoc rest m, frames-snoc sub m)
        (owed-snoc s (payload_bytes n) (frames rest) (frames sub) (frame m) e))
on_posted_send-Accounted m c s sub (broken n rest lost w q b e) =
    broken n (rest ++ m ∷ []) (lost ++ frame m) (ground arith) (ground arith) (ground arith)
      (rw (frames-snoc sub m, ← e) (sym (append_assoc s lost (frame m))))

-- A handler that returns, and the account after it.
abbrev pub Writes : Option Connection → List ℕ → List ℕ → Type 0
Writes r s owed =
    (c : Connection) × (r ≡ some c)
    × Account (select is_writing c.pending) c.out_msg_queue c.is_open s owed

pop_and_continue-Writes :
    (c : Connection) (m : Message) (rest : List Message) (s owed : List ℕ)
    → select is_writing c.pending ≡ []
    → c.out_msg_queue ≡ m ∷ rest
    → s ++ frames rest ≡ owed
    → Writes (pop_and_continue c) s owed
unfolding pop_and_continue
pop_and_continue-Writes c m [] s owed w q e =
    (record c { out_msg_queue = [] }, ground arith, idle w refl (rw (frames-nil, append-nil) at e))
pop_and_continue-Writes c m (next ∷ rest) s owed w q e = (
  start writing_header (record c { out_msg_queue = next ∷ rest }),
  ground arith,
  at_header next rest (ground (arith, select-append is_writing c.pending (writing_header ∷ [])))
      refl (rw frames-cons at e),
)

-- A write that fails after a front of its buffer leaves the rest of it owed.
front_then :
    (s : List ℕ) (put : ℕ) (b r : List ℕ) {o : List ℕ}
    → s ++ (b ++ r) ≡ o
    → (s ++ take put b) ++ (drop put b ++ r) ≡ o
front_then s put b r e =
    append_assoc s (take put b) (drop put b ++ r)
    ∙ ap (λ x. s ++ x)
        (sym (append_assoc (take put b) (drop put b) r) ∙ ap (λ x. x ++ r) (take-append-drop put b))
    ∙ e

header_then :
    (s f h p r : List ℕ) {o : List ℕ} → f ≡ h ++ p → s ++ (f ++ r) ≡ o → (s ++ h) ++ (p ++ r) ≡ o
header_then s f h p r d e = rw (← e, d) (simp append_assoc)

abbrev payload_of : Message → List ℕ
payload_of m = if ltb 0 (size m) then payload_bytes m else []

pub on_write_header-Writes :
    (failed : Bool) (put : ℕ) (c : Connection) (m : Message) (rest : List Message) (s owed : List ℕ)
    → select is_writing c.pending ≡ []
    → c.out_msg_queue ≡ m ∷ rest
    → s ++ (frame m ++ frames rest) ≡ owed
    → Writes
        (on_write_header failed c)
        (s ++ (if failed then take put (header_bytes m.header) else header_bytes m.header))
        owed
unfolding on_write_header
on_write_header-Writes true put c m rest s owed w q e = (
  close c,
  refl,
  broken m rest (drop put (header_bytes m.header) ++ (payload_of m ++ frames rest)) w q refl (
      front_then s put (header_bytes m.header) (payload_of m ++ frames rest) (
        ap (λ x. s ++ x)
          (sym (append_assoc (header_bytes m.header) (payload_of m) (frames rest))
            ∙ ap (λ x. x ++ frames rest) (sym (frame_of_header m)))
        ∙ e)),
)
on_write_header-Writes false put c m rest s owed w q e = elim (Bool-cases (ltb 0 (size m))) [
  | inl full ↦ (
    start writing_payload c,
    ground arith,
    at_payload m rest (ground (arith, select-append is_writing c.pending (writing_payload ∷ []))) q
        full
        (header_then s (frame m) (header_bytes m.header) (payload_bytes m) (frames rest)
          (frame_of_payload m full) e),
  )
  | inr bare ↦
      let sent_all : (s ++ header_bytes m.header) ++ frames rest ≡ owed =
        rw append_assoc (rw (frame_of_empty m bare) at e) in
      let (c', ok, acc) =
        pop_and_continue-Writes c m rest (s ++ header_bytes m.header) owed w q sent_all in
      (c', ground (arith, ok), acc)
]

pub on_write_payload-Writes :
    (failed : Bool) (put : ℕ) (c : Connection) (m : Message) (rest : List Message) (s owed : List ℕ)
    → select is_writing c.pending ≡ []
    → c.out_msg_queue ≡ m ∷ rest
    → s ++ (payload_bytes m ++ frames rest) ≡ owed
    → Writes
        (on_write_payload failed c)
        (s ++ (if failed then take put (payload_bytes m) else payload_bytes m))
        owed
unfolding on_write_payload
on_write_payload-Writes true put c m rest s owed w q e = (
  close c,
  refl,
  broken m rest (drop put (payload_bytes m) ++ frames rest) w q refl
      (front_then s put (payload_bytes m) (frames rest) e),
)
on_write_payload-Writes false put c m rest s owed w q e =
    pop_and_continue-Writes c m rest (s ++ payload_bytes m) owed w q (rw append_assoc e)
