-- ===== src/Connection/Writer/Completion.antt =====
-- connection_net_interface.hpp: each entry of the pending work, completed with any outcome, keeps
-- the account of the write side.
use networking_cpp_intro.Common.{
  ℕ, zero, suc, ◌≡◌, ◌≢◌, refl, sym, ap, ◌∙◌, Bool, true, false, List, [], ◌∷◌, ◌++◌, append-nil,
  some, arith,
}
use networking_cpp_intro.Message.{Message}
use networking_cpp_intro.Message.Wire.{frames}
use networking_cpp_intro.Connection.{
  Connection, AsyncOp, posted_send, posted_close, connecting, reading_header, reading_payload,
  writing_header, writing_payload, reading_validation_request, sending_validation,
  checking_validation, complete,
}
use networking_cpp_intro.Connection.Steps.{Link, puts, submits, resumed}
use networking_cpp_intro.Connection.Pending.{
  is_writing, select, select-resumed, select_of_only, select_not_none,
}
use networking_cpp_intro.Connection.Writer.Account.{
  Accounted, idle, at_header, at_payload, broken, Account-keep, Keeps, is_plain, complete-Keeps,
}
use networking_cpp_intro.Connection.Writer.Progress.{
  on_posted_send-Accounted, on_write_header-Writes, on_write_payload-Writes,
}

abbrev pub LinkAccounted : Link → Type 0
LinkAccounted l = Accounted l.conn l.sent l.submitted

-- The completion of `op` is defined, and the account holds after it.
abbrev pub Completes : AsyncOp → Bool → List ℕ → ℕ → List AsyncOp → List AsyncOp → Link → Type 0
Completes op failed bytes put before after l =
    (c : Connection) × (complete op failed bytes (resumed before after l.conn) ≡ some c)
    × Accounted c (l.sent ++ puts op failed put l.conn.out_msg_queue) (l.submitted ++ submits op)

complete_plain :
    (op : AsyncOp) (failed : Bool) (bytes : List ℕ) (c : Connection)
    → is_plain op ≡ true
    → (c' : Connection) × (complete op failed bytes c ≡ some c')
unfolding complete
complete_plain (posted_send m) failed bytes c p = (_, refl)
complete_plain writing_header failed bytes c p = absurd (ground arith)
complete_plain writing_payload failed bytes c p = absurd (ground arith)
complete_plain posted_close failed bytes c p = (_, refl)
complete_plain connecting failed bytes c p = (_, refl)
complete_plain reading_header failed bytes c p = (_, refl)
complete_plain reading_payload failed bytes c p = (_, refl)
complete_plain reading_validation_request failed bytes c p = (_, refl)
complete_plain sending_validation failed bytes c p = (_, refl)
complete_plain checking_validation failed bytes c p = (_, refl)

pub plain_is_no_write : (op : AsyncOp) → is_plain op ≡ true → is_writing op ≡ false
plain_is_no_write (posted_send m) p = refl
plain_is_no_write _ p = ground arith

pub plain_adds_nothing :
    (op : AsyncOp) (q : List Message) (failed : Bool) (put : ℕ)
    → is_plain op ≡ true
    → (puts op failed put q ≡ []) × (submits op ≡ [])
plain_adds_nothing (posted_send m) q failed put p = absurd (ground arith)
plain_adds_nothing _ q failed zero p = ground arith
plain_adds_nothing _ q failed (suc put) p = ground arith

-- A call of `SendData` that is posted writes nothing itself.
pub post_sends_nothing :
    (m : Message) (q : List Message) (s : List ℕ) (failed : Bool) (put : ℕ)
    → s ++ puts (posted_send m) failed put q ≡ s
post_sends_nothing m q s false put = append-nil s
post_sends_nothing m q s true zero = append-nil s
post_sends_nothing m q s true (suc put) = append-nil s

other_write : writing_payload ≢ writing_header
other_write h = cc

module _ (failed : Bool) (bytes : List ℕ) (put : ℕ) (before after : List AsyncOp) (l : Link) where
  -- Any entry that is no write and queues no message.
  plain-Completes :
      (op : AsyncOp)
      → is_plain op ≡ true
      → l.conn.pending ≡ before ++ op ∷ after
      → LinkAccounted l
      → Completes op failed bytes put before after l
  plain-Completes op p e a =
      let (c, ok) = complete_plain op failed bytes (resumed before after l.conn) p in
      let k : Keeps (resumed before after l.conn) c =
        complete-Keeps op failed bytes (resumed before after l.conn) c p ok in
      (
        c,
        ok,
        rw ((plain_adds_nothing op l.conn.out_msg_queue failed put p).1, append-nil)
            (Account-keep
              (k.same_writes
                ∙ select-resumed is_writing before after op (plain_is_no_write op p)
                ∙ ap (select is_writing) (sym e))
              k.same_queue k.stays_closed
              (ap (λ x. l.sent ++ x) (plain_adds_nothing op l.conn.out_msg_queue failed put p).0
                ∙ append-nil l.sent)
              a),
      )

  writing_header-Completes :
      l.conn.pending ≡ before ++ writing_header ∷ after
      → LinkAccounted l
      → Completes writing_header failed bytes put before after l
  unfolding complete
  writing_header-Completes e (idle w q s) =
      absurd (select_not_none is_writing before after writing_header refl (rw (← e) w))
  writing_header-Completes e (at_header m rest w q s) =
      let none_left =
        (select_of_only is_writing before after writing_header writing_header refl
          (rw (← e) w)).1 in
      let (c, ok, acc) =
        on_write_header-Writes failed put (resumed before after l.conn) m rest l.sent
          (frames l.submitted) none_left q s in
      (c, ok, rw (q, append-nil l.submitted) acc)
  writing_header-Completes e (at_payload m rest w q p s) = absurd (
      other_write
        (select_of_only is_writing before after writing_header writing_payload refl (rw (← e) w)).0)
  writing_header-Completes e (broken m rest lost w q c s) =
      absurd (select_not_none is_writing before after writing_header refl (rw (← e) w))

  writing_payload-Completes :
      l.conn.pending ≡ before ++ writing_payload ∷ after
      → LinkAccounted l
      → Completes writing_payload failed bytes put before after l
  unfolding complete
  writing_payload-Completes e (idle w q s) =
      absurd (select_not_none is_writing before after writing_payload refl (rw (← e) w))
  writing_payload-Completes e (at_header m rest w q s) = absurd (
      other_write (
        sym
          (select_of_only is_writing before after writing_payload writing_header refl
            (rw (← e) w)).0))
  writing_payload-Completes e (at_payload m rest w q p s) =
      let none_left =
        (select_of_only is_writing before after writing_payload writing_payload refl
          (rw (← e) w)).1 in
      let (c, ok, acc) =
        on_write_payload-Writes failed put (resumed before after l.conn) m rest l.sent
          (frames l.submitted) none_left q s in
      (c, ok, rw (q, append-nil l.submitted) acc)
  writing_payload-Completes e (broken m rest lost w q c s) =
      absurd (select_not_none is_writing before after writing_payload refl (rw (← e) w))

  posted_send-Completes :
      (m : Message)
      → l.conn.pending ≡ before ++ posted_send m ∷ after
      → LinkAccounted l
      → Completes (posted_send m) failed bytes put before after l
  unfolding complete
  posted_send-Completes m e a = (
    _,
    refl,
    on_posted_send-Accounted m (resumed before after l.conn) _ l.submitted (
        Account-keep
          (select-resumed is_writing before after (posted_send m) refl
            ∙ ap (select is_writing) (sym e))
          refl (λ h. h) (post_sends_nothing m l.conn.out_msg_queue l.sent failed put) a),
  )

  pub completion-Completes :
      (op : AsyncOp)
      → l.conn.pending ≡ before ++ op ∷ after
      → LinkAccounted l
      → Completes op failed bytes put before after l
  completion-Completes (posted_send m) e a = posted_send-Completes m e a
  completion-Completes writing_header e a = writing_header-Completes e a
  completion-Completes writing_payload e a = writing_payload-Completes e a
  completion-Completes op e a = plain-Completes op refl e a
