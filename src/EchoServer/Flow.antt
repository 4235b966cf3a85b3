-- ===== src/EchoServer/Flow.antt =====
-- tcp_echo_server_circularbuffer_multithreaded.cpp: reads and writes of one session.
use networking_cpp_intro.Common.{ℕ, ◌≤◌, ◌<◌, ◌≡◌, refl, if◌then◌else◌, Bool, true, arith}
use networking_cpp_intro.EchoServer.{Session, buffered, started, on_read, on_write}

-- At most one read and at most one write are in hand, `writing_` says which of them is, and
-- buffered bytes of an open session are being written.
pub record IsFlowing (s : Session) : Type 0 where
  pub one_read : s.reads ≤ 1
  pub one_write : s.writes ≡ (if s.writing then 1 else 0)
  pub moving : s.is_open ≡ true → 0 < buffered s.buffer → s.writing ≡ true

-- A read or a write completes, in either order, with an error or not, with any number of bytes.
pub data Step (s : Session) : Session → Type 0 where
  read_done : (failed : Bool) (n : ℕ) → 0 < s.reads → Step s (on_read failed n s)
  write_done : (failed : Bool) (n : ℕ) → 0 < s.writes → Step s (on_write failed n s)

pub data Reach (s : Session) : Session → Type 0 where
  here : Reach s s
  next : {t u : Session} → Reach s t → Step t u → Reach s u

on_read-IsFlowing :
    (failed : Bool) (n : ℕ) (s : Session)
    → 0 < s.reads
    → IsFlowing s
    → IsFlowing (on_read failed n s)
unfolding on_read
on_read-IsFlowing failed n s r f = record {
  one_read = ground (arith, f.one_read);
  one_write = ground (arith, f.one_write);
  moving = λ o. ground (arith, f.moving);
}

on_write-IsFlowing :
    (failed : Bool) (n : ℕ) (s : Session)
    → 0 < s.writes
    → IsFlowing s
    → IsFlowing (on_write failed n s)
unfolding on_write
on_write-IsFlowing failed n s w f = record {
  one_read = ground (arith, f.one_read);
  one_write = ground (arith, f.one_write);
  moving = λ o. ground (arith, f.moving);
}

-- Through every history of a session no two reads and no two writes are in hand at once,
-- and no byte of an open session waits with no write to carry it.
pub session-IsFlowing : {s : Session} → Reach started s → IsFlowing s
unfolding buffered
session-IsFlowing here = record {
  one_read = omega arith;
  one_write = refl;
  moving = λ o h. absurd (omega arith);
}
session-IsFlowing (next r (read_done failed n h)) =
    on_read-IsFlowing failed n _ h (session-IsFlowing r)
session-IsFlowing (next r (write_done failed n h)) =
    on_write-IsFlowing failed n _ h (session-IsFlowing r)
