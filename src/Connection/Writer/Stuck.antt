-- ===== src/Connection/Writer/Stuck.antt =====
-- connection_net_interface.hpp: the state that a failed write leaves behind.
use networking_cpp_intro.Common.{
  ℕ, ◌≡◌, ◌≢◌, refl, sym, ap, subst, ◌∙◌, Bool, true, false, List, [], ◌∷◌, ◌++◌, append-nil, some,
  eq_of_some, arith,
}
use networking_cpp_intro.Connection.{
  Connection, AsyncOp, posted_send, posted_close, writing_header, writing_payload, send_data,
  disconnect, complete, on_posted_send, on_write_header, on_write_payload,
}
use networking_cpp_intro.Connection.Steps.{
  Link, Step, send, hang_up, completes, Reach, here, next, puts, submits, resumed,
}
use networking_cpp_intro.Connection.Pending.{
  is_writing, select, select-start, select-resumed, select_not_none, select_of_only,
}
use networking_cpp_intro.Connection.Writer.Account.{
  idle, at_header, at_payload, broken, Keeps, complete-Keeps,
}
use networking_cpp_intro.Connection.Writer.Order.{IsFresh, Reach-Accounted}
use networking_cpp_intro.Connection.Writer.Completion.{
  LinkAccounted, plain_adds_nothing, post_sends_nothing,
}

-- Messages wait, and no write is in flight.
pub record IsStuck (c : Connection) : Type 0 where
  pub no_write : select is_writing c.pending ≡ []
  pub waiting : c.out_msg_queue ≢ []

-- Nothing more was written, and the connection is still stuck.
abbrev Stays : Link → Link → Type 0
Stays l l' = IsStuck l'.conn × (l'.sent ≡ l.sent)

disconnect-IsStuck : {c : Connection} → IsStuck c → IsStuck (disconnect c)
unfolding disconnect
disconnect-IsStuck {c} h = ground (arith, select-start is_writing c.pending posted_close)

on_posted_send-IsStuck : (m : _) {c : Connection} → IsStuck c → IsStuck (on_posted_send m c)
unfolding on_posted_send
on_posted_send-IsStuck m {c} h = ground arith

Keeps-IsStuck : {c c' : Connection} → Keeps c c' → IsStuck c → IsStuck c'
Keeps-IsStuck k h = record {
  no_write = k.same_writes ∙ h.no_write;
  waiting = λ e. h.waiting (sym k.same_queue ∙ e);
}

module _ (failed : Bool) (bytes : List ℕ) (put : ℕ) (before after : List AsyncOp) (l : Link)
    (c : Connection) (h : IsStuck l.conn) where
  resumed-IsStuck :
      (op : AsyncOp)
      → l.conn.pending ≡ before ++ op ∷ after
      → is_writing op ≡ false
      → IsStuck (resumed before after l.conn)
  resumed-IsStuck op e p = record {
    no_write =
        select-resumed is_writing before after op p ∙ ap (select is_writing) (sym e) ∙ h.no_write;
    waiting = h.waiting;
  }

  completes-Stays :
      (op : AsyncOp)
      → l.conn.pending ≡ before ++ op ∷ after
      → complete op failed bytes (resumed before after l.conn) ≡ some c
      → IsStuck c × (l.sent ++ puts op failed put l.conn.out_msg_queue ≡ l.sent)
  unfolding complete
  completes-Stays (posted_send m) e d = (
    subst IsStuck (eq_of_some d)
        (on_posted_send-IsStuck m (resumed-IsStuck (posted_send m) e refl)),
    post_sends_nothing m l.conn.out_msg_queue l.sent failed put,
  )
  completes-Stays writing_header e d =
      absurd (select_not_none is_writing before after writing_header refl (rw (← e) h.no_write))
  completes-Stays writing_payload e d =
      absurd (select_not_none is_writing before after writing_payload refl (rw (← e) h.no_write))
  completes-Stays op e d = (
    Keeps-IsStuck (complete-Keeps op failed bytes (resumed before after l.conn) c refl d)
        (resumed-IsStuck op e refl),
    ap (λ x. l.sent ++ x) (plain_adds_nothing op l.conn.out_msg_queue failed put refl).0
        ∙ append-nil l.sent,
  )

Step-Stays : {l l' : Link} → IsStuck l.conn → Step l l' → Stays l l'
unfolding send_data
Step-Stays {l} h (send m) = (
  record {
    no_write = select-start is_writing l.conn.pending (posted_send m) refl ∙ h.no_write;
    waiting = h.waiting;
  },
  refl,
)
Step-Stays {l} h hang_up = (disconnect-IsStuck h, refl)
Step-Stays {l} h (completes before after op failed bytes put c e d) =
    completes-Stays failed bytes put before after l c h op e d

Reach-Stays : {l l' : Link} → IsStuck l.conn → Reach l l' → Stays l l'
Reach-Stays h here = (h, refl)
Reach-Stays h (next r st) =
    let before = Reach-Stays h r in
    let after = Step-Stays before.0 st in (after.0, after.1 ∙ before.1)

-- The state in which an entry that writes completes.
pub write-IsStuck :
    (before after : List AsyncOp) (op : AsyncOp) (l : Link)
    → is_writing op ≡ true
    → l.conn.pending ≡ before ++ op ∷ after
    → LinkAccounted l
    → IsStuck (resumed before after l.conn)
write-IsStuck before after op l is e (idle w q s) =
    absurd (select_not_none is_writing before after op is (rw (← e) w))
write-IsStuck before after op l is e (at_header m rest w q s) = record {
  no_write = (select_of_only is_writing before after op writing_header is (rw (← e) w)).1;
  waiting = λ n. cc;
}
write-IsStuck before after op l is e (at_payload m rest w q p s) = record {
  no_write = (select_of_only is_writing before after op writing_payload is (rw (← e) w)).1;
  waiting = λ n. cc;
}
write-IsStuck before after op l is e (broken m rest lost w q b s) =
    absurd (select_not_none is_writing before after op is (rw (← e) w))

pub failed_write-IsStuck :
    (op : AsyncOp) (bytes : List ℕ) (c c' : Connection)
    → is_writing op ≡ true
    → complete op true bytes c ≡ some c'
    → IsStuck c
    → IsStuck c'
unfolding complete on_write_header on_write_payload
failed_write-IsStuck writing_header bytes c c' is d h =
    subst IsStuck (eq_of_some d) (record { no_write = h.no_write; waiting = h.waiting })
failed_write-IsStuck writing_payload bytes c c' is d h =
    subst IsStuck (eq_of_some d) (record { no_write = h.no_write; waiting = h.waiting })
failed_write-IsStuck _ bytes c c' is d h = absurd (ground arith)

-- The link after a write that has failed with `put` bytes of its buffer on the socket.
abbrev pub after_failure : AsyncOp → ℕ → Connection → Link → Link
after_failure op put c l = record {
  conn = c;
  sent = l.sent ++ puts op true put l.conn.out_msg_queue;
  submitted = l.submitted ++ submits op;
}

-- After any history of a connection that starts with nothing queued, in flight or written, if a write
-- of a message fails, whatever part of its buffer it has put on the socket: `WriteHeader` and
-- `writePayload` never put a byte on the socket again, whatever is sent or completes later. There is
-- always a message in the out queue then, and no write of a message in flight.
pub never_writes_again :
    {s l l' : Link} (before after : List AsyncOp) (op : AsyncOp) (bytes : List ℕ) (put : ℕ)
    (c : Connection)
    → IsFresh s
    → Reach s l
    → l.conn.pending ≡ before ++ op ∷ after
    → is_writing op ≡ true
    → complete op true bytes (resumed before after l.conn) ≡ some c
    → Reach (after_failure op put c l) l'
    → IsStuck l'.conn × (l'.sent ≡ l.sent ++ puts op true put l.conn.out_msg_queue)
never_writes_again {l = l} before after op bytes put c f r e is d later =
    Reach-Stays
      (failed_write-IsStuck op bytes (resumed before after l.conn) c is d
        (write-IsStuck before after op l is e (Reach-Accounted f r)))
      later
