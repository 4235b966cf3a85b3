-- ===== src/SimpleEcho.antt =====
-- other_ressources/async_io_with_cpp/simple_echo_server.cpp: a session that reads and writes in turn, over
-- one stream buffer.
pub mod PingPong
pub mod Accepting
mod Tests
use networking_cpp_intro.Common.{
  ℕ, ◌≤◌, ◌<◌, ◌≡◌, ◌+◌, ◌-◌, if◌then◌else◌, Bool, true, false, List, [], ◌∷◌, ◌++◌, length, take,
  drop,
}

-- `streambuffer_` as the bytes that can be read from it, with the numbers of reads and writes in hand.
pub record Session : Type 0 where
  pub streambuffer : List ℕ
  pub reads : ℕ
  pub writes : ℕ

abbrev pub start_read : Session → Session
start_read s = record s { reads = s.reads + 1 }

abbrev pub start_write : Session → Session
start_write s = record s { writes = s.writes + 1 }

-- A new session, and `start`.
abbrev pub started : Session
started = start_read (record { streambuffer = []; reads = 0; writes = 0 })

unfoldable pub on_read : Bool → Session → Session
on_read fails s = if fails then s else start_write s

unfoldable pub on_write : Bool → Session → Session
on_write fails s = if fails then s else start_read s

-- A read completes: its bytes stand behind those in the buffer, and `on_read` runs.
unfoldable pub read_completes : Bool → List ℕ → Session → Session
read_completes fails bytes s =
    on_read fails (record s { streambuffer = s.streambuffer ++ bytes; reads = s.reads - 1 })

-- A write of `n` bytes completes: they are consumed, and `on_write` runs.
unfoldable pub write_completes : Bool → ℕ → Session → Session
write_completes fails n s =
    on_write fails (record s { streambuffer = drop n s.streambuffer; writes = s.writes - 1 })
