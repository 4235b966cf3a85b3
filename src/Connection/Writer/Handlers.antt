-- ===== src/Connection/Writer/Handlers.antt =====
-- connection_net_interface.hpp: what the handlers find and leave behind, in whatever state they run.
use networking_cpp_intro.Common.{
  ℕ, ◌≤◌, ◌≡◌, if◌then◌else◌, Bool, true, false, ◌&&◌, Bool-cases, inl, inr, List, ◌∷◌, ◌++◌,
  length, some, arith,
}
use networking_cpp_intro.Connection.{Connection, AsyncOp, complete}
use networking_cpp_intro.Connection.Steps.{Link, Reach, resumed}
use networking_cpp_intro.Connection.Pending.{is_writing, select}
use networking_cpp_intro.Connection.Writer.Completion.{LinkAccounted, completion-Completes}
use networking_cpp_intro.Connection.Writer.Order.{IsFresh, Reach-Accounted, one_write}
use networking_cpp_intro.Connection.Writer.Stuck.{write-IsStuck, failed_write-IsStuck}

none_after_failure :
    (bytes : List ℕ) (before after : List AsyncOp) (op : AsyncOp) (l : Link) (c : Connection)
    → LinkAccounted l
    → l.conn.pending ≡ before ++ op ∷ after
    → is_writing op ≡ true
    → complete op true bytes (resumed before after l.conn) ≡ some c
    → length (select is_writing c.pending) ≤ 0
none_after_failure bytes before after op l c a e is d =
    let stuck =
      failed_write-IsStuck op bytes (resumed before after l.conn) c is d
        (write-IsStuck before after op l is e a) in
    ground (arith, stuck.no_write)

writes_left :
    (failed : Bool) (bytes : List ℕ) (before after : List AsyncOp) (op : AsyncOp) (l : Link)
    (c : Connection)
    → LinkAccounted l
    → l.conn.pending ≡ before ++ op ∷ after
    → complete op failed bytes (resumed before after l.conn) ≡ some c
    → length (select is_writing c.pending) ≤ 1
    → length (select is_writing c.pending) ≤ (if is_writing op && failed then 0 else 1)
writes_left false bytes before after op l c a e d one = ground (arith, one)
writes_left true bytes before after op l c a e d one = elim (Bool-cases (is_writing op)) [
  | inl is ↦ ground (arith, none_after_failure bytes before after op l c a e is d)
  | inr other ↦ ground (arith, one)
]

-- After any history of a connection that starts with nothing queued, in flight or written, failed
-- writes that put any front of their buffer on the socket included: whatever pending entry completes,
-- with an error or not and with any bytes read, its handler is defined, so no front is asked of an
-- empty queue. After it at most one write of a message is in flight, and none if the entry was a write
-- of a message that failed.
pub completion_defined :
    {s l : Link} (failed : Bool) (bytes : List ℕ) (before after : List AsyncOp) (op : AsyncOp)
    → IsFresh s
    → Reach s l
    → l.conn.pending ≡ before ++ op ∷ after
    → (c : Connection) × (complete op failed bytes (resumed before after l.conn) ≡ some c)
      × (length (select is_writing c.pending) ≤ (if is_writing op && failed then 0 else 1))
completion_defined {l = l} failed bytes before after op f r e =
    let a = Reach-Accounted f r in
    let (c, ok, acc) = completion-Completes failed bytes 0 before after l op e a in
    (c, ok, writes_left failed bytes before after op l c a e ok (one_write acc))
