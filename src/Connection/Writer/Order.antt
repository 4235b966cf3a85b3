-- ===== src/Connection/Writer/Order.antt =====
-- connection_net_interface.hpp: what the write side guarantees after any history of calls,
-- completions and failures.
use networking_cpp_intro.Common.{
  ℕ, ◌≡◌, refl, sym, ap, ◌∙◌, Bool, true, List, [], ◌++◌, length, ◌≤◌, append-nil, eq_of_some,
  arith,
}
use networking_cpp_intro.Message.Wire.{frames, frames-nil}
use networking_cpp_intro.Connection.{
  Connection, AsyncOp, posted_send, posted_close, send_data, disconnect,
}
use networking_cpp_intro.Connection.Steps.{Link, Step, send, hang_up, completes, Reach, here, next}
use networking_cpp_intro.Message.{Message}
use networking_cpp_intro.Connection.Pending.{is_writing, select, select-start}
use networking_cpp_intro.Connection.Writer.Account.{
  Account, Accounted, idle, at_header, at_payload, broken, Account-keep,
}
use networking_cpp_intro.Connection.Writer.Completion.{LinkAccounted, completion-Completes}

-- Nothing has been sent yet.
pub record IsFresh (l : Link) : Type 0 where
  pub no_write : select is_writing l.conn.pending ≡ []
  pub no_message : l.conn.out_msg_queue ≡ []
  pub nothing_sent : l.sent ≡ []
  pub nothing_submitted : l.submitted ≡ []

pub IsFresh-Accounted : {l : Link} → IsFresh l → LinkAccounted l
IsFresh-Accounted f =
    idle f.no_write f.no_message (f.nothing_sent ∙ sym (ap frames f.nothing_submitted ∙ frames-nil))

disconnect-Accounted :
    (c : Connection) (s : List ℕ) (sub : List Message)
    → Accounted c s sub
    → Accounted (disconnect c) s sub
unfolding disconnect
disconnect-Accounted c s sub a =
    Account-keep (ground (arith, select-start is_writing c.pending posted_close)) (ground arith)
      (ground arith) refl a

-- Every step keeps the account.
pub Step-Accounted : {l l' : Link} → Step l l' → LinkAccounted l → LinkAccounted l'
unfolding send_data
Step-Accounted {l} (send m) a =
    Account-keep (select-start is_writing l.conn.pending (posted_send m) refl) refl (λ h. h) refl a
Step-Accounted {l} hang_up a = disconnect-Accounted l.conn l.sent l.submitted a
Step-Accounted {l} (completes before after op failed bytes put c e h) a =
    let (c', ok, acc) = completion-Completes failed bytes put before after l op e a in
    rw (eq_of_some (sym h ∙ ok)) acc

pub Reach-Accounted : {s l : Link} → IsFresh s → Reach s l → LinkAccounted l
Reach-Accounted f here = IsFresh-Accounted f
Reach-Accounted f (next r st) = Step-Accounted st (Reach-Accounted f r)

pub Accounted-IsPrefix :
    (l : Link) → LinkAccounted l → (lost : List ℕ) × (l.sent ++ lost ≡ frames l.submitted)
Accounted-IsPrefix l (idle w q e) = ([], append-nil l.sent ∙ e)
Accounted-IsPrefix l (at_header m rest w q e) = (_, e)
Accounted-IsPrefix l (at_payload m rest w q p e) = (_, e)
Accounted-IsPrefix l (broken m rest lost w q b e) = (lost, e)

-- After any history of a connection that starts with nothing queued, in flight or written, failed
-- writes that put any front of their buffer on the socket included: what `WriteHeader` and
-- `writePayload` have put on the socket is a front of the frames of the messages queued, in the order
-- in which they were queued. The frame of a message is its id and its size in four bytes each, and
-- then, of the memory of its payload, as many bytes as it has elements.
pub sent_in_order :
    {s l : Link} → IsFresh s → Reach s l → (lost : List ℕ) × (l.sent ++ lost ≡ frames l.submitted)
sent_in_order {s} {l} f r = Accounted-IsPrefix l (Reach-Accounted f r)

pub one_write :
    {ws : List AsyncOp} {q : List Message} {b : Bool} {s o : List ℕ}
    → Account ws q b s o
    → length ws ≤ 1
one_write (idle w q e) = ground arith
one_write (at_header m rest w q e) = ground arith
one_write (at_payload m rest w q p e) = ground arith
one_write (broken m rest lost w q b e) = ground arith

pub Accounted-idle :
    (l : Link)
    → LinkAccounted l
    → l.conn.is_open ≡ true
    → select is_writing l.conn.pending ≡ []
    → (l.sent ≡ frames l.submitted) × (l.conn.out_msg_queue ≡ [])
Accounted-idle l (idle w q e) b n = (e, q)
Accounted-idle l (at_header m rest w q e) b n = cc
Accounted-idle l (at_payload m rest w q p e) b n = cc
Accounted-idle l (broken m rest lost w q c e) b n = cc

-- After any history of a connection that starts with nothing queued, in flight or written, if the
-- socket is open and no write is in flight then all that was queued has been written, byte for byte,
-- and nothing waits.
pub all_sent :
    {s l : Link}
    → IsFresh s
    → Reach s l
    → l.conn.is_open ≡ true
    → select is_writing l.conn.pending ≡ []
    → (l.sent ≡ frames l.submitted) × (l.conn.out_msg_queue ≡ [])
all_sent {s} {l} f r = Accounted-idle l (Reach-Accounted f r)
