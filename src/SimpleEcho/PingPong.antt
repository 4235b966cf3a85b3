-- ===== src/SimpleEcho/PingPong.antt =====
-- simple_echo_server.cpp: one session under an environment that chooses what completes. A read without
-- an error gives a byte or more, and a write without an error is of all bytes in the buffer.
use networking_cpp_intro.Common.{
  ℕ, ◌≤◌, ◌<◌, ◌≡◌, ◌⊎◌, inl, inr, refl, ap, ◌+◌, if◌then◌else◌, Bool, true, false, List, [], ◌++◌,
  append_assoc, length, length-append, take, drop, take-append-drop, drop_of_le, arith,
}
use networking_cpp_intro.SimpleEcho.{
  Session, started, on_read, on_write, read_completes, write_completes,
}

-- A session, the bytes read and the bytes written, and whether an operation has failed.
pub record Run : Type 0 where
  pub session : Session
  pub received : List ℕ
  pub written : List ℕ
  pub failed : Bool

abbrev pub new_run : Run
new_run = record { session = started; received = []; written = []; failed = false }

pub data Step (r : Run) : Run → Type 0 where
  read_done :
      (fails : Bool) (bytes : List ℕ)
      → 0 < r.session.reads
      → (fails ≡ false → 1 ≤ length bytes)
      → Step r (record r {
        session = read_completes fails bytes r.session;
        received = r.received ++ bytes;
        failed = if fails then true else r.failed;
      })
  write_done :
      (fails : Bool) (n : ℕ)
      → 0 < r.session.writes
      → (fails ≡ false → n ≡ length r.session.streambuffer)
      → Step r (record r {
        session = write_completes fails n r.session;
        written = r.written ++ take n r.session.streambuffer;
        failed = if fails then true else r.failed;
      })

pub data Reach (r : Run) : Run → Type 0 where
  here : Reach r r
  next : {t u : Run} → Reach r t → Step t u → Reach r u

-- While nothing has failed, a read is in hand and the buffer is empty, or a write is and it is not.
pub record IsPingPong (r : Run) : Type 0 where
  pub exact : r.received ≡ r.written ++ r.session.streambuffer
  pub single : r.session.reads + r.session.writes ≤ 1
  pub one :
      r.failed ≡ false
      → (r.session.reads ≡ 1) × (length r.session.streambuffer ≡ 0)
        ⊎ (r.session.writes ≡ 1) × (1 ≤ length r.session.streambuffer)

step-IsPingPong : {r r' : Run} → Step r r' → IsPingPong r → IsPingPong r'
unfolding read_completes write_completes on_read on_write
step-IsPingPong {r} (read_done true bytes pending some_) p = record {
  exact = cc (p.exact, append_assoc r.written r.session.streambuffer bytes);
  single = omega (arith, p.single);
  one = λ h. absurd cc;
}
step-IsPingPong {r} (read_done false bytes pending some_) p =
    let more = length-append r.session.streambuffer bytes in
    record {
      exact = cc (p.exact, append_assoc r.written r.session.streambuffer bytes);
      single = omega (arith, p.single);
      one = λ h. inr (omega (arith, p.single), omega (arith, more, some_ refl));
    }
step-IsPingPong {r} (write_done true n pending all) p =
    let b = r.session.streambuffer in
    record {
      exact = cc (p.exact, append_assoc r.written (take n b) (drop n b), take-append-drop n b);
      single = omega (arith, p.single);
      one = λ h. absurd cc;
    }
step-IsPingPong {r} (write_done false n pending all) p =
    let b = r.session.streambuffer in
    let none_left = drop_of_le n b (omega (arith, all refl)) in
    record {
      exact = cc (p.exact, append_assoc r.written (take n b) (drop n b), take-append-drop n b);
      single = omega (arith, p.single);
      one = λ h. inl (omega (arith, p.single), ap length none_left);
    }

-- Through every history of a session the bytes written and those in the buffer are together exactly the
-- bytes received, in their order, and never are two operations in hand. While nothing has
-- failed there is one: a read with all that was received written back, or a write of what is not.
pub session-IsPingPong : {r : Run} → Reach new_run r → IsPingPong r
session-IsPingPong here = record { exact = refl; single = omega arith; one = λ h. inl (refl, refl) }
session-IsPingPong (next reach step) = step-IsPingPong step (session-IsPingPong reach)
