-- ===== src/EchoDecoupled.antt =====
-- other_ressources/async_io_with_cpp/tcp_echo_server_read_write_decoupled.cpp: the session, which reads
-- into one stream buffer and writes from another.
pub mod Repeats
mod Tests
use networking_cpp_intro.Common.{
  ℕ, ◌+◌, ◌-◌, if◌then◌else◌, Bool, true, false, not, ◌&&◌, List, [], ◌∷◌, ◌++◌,
}
use networking_cpp_intro.TsQueue.{is_empty}

-- The bytes of the two buffers, and those that the writes have put on the socket.
pub record Session : Type 0 where
  pub instreambuffer : List ℕ
  pub outstreambuffer : List ℕ
  pub writing : Bool
  pub is_open : Bool
  pub reads : ℕ
  pub writes : ℕ
  pub written : List ℕ

abbrev pub start_read : Session → Session
start_read s = record s { reads = s.reads + 1 }

-- `write` copies what is in the one buffer to the other, and leaves the first as it is.
abbrev pub start_write : Session → Session
start_write s = record s {
  writing = true;
  outstreambuffer = s.outstreambuffer ++ s.instreambuffer;
  writes = s.writes + 1;
}

-- `start` of a new session.
abbrev pub started : Session
started = start_read (record {
  instreambuffer = [];
  outstreambuffer = [];
  writing = false;
  is_open = true;
  reads = 0;
  writes = 0;
  written = [];
})

-- A read completes: `bytes` stand behind the others in the buffer, and `on_read` runs. A read that finds
-- the buffer at the 65536 bytes which its constructor allows gives no bytes.
unfoldable pub on_read : Bool → List ℕ → Session → Session
on_read failed bytes s =
    let s' = record s { instreambuffer = s.instreambuffer ++ bytes; reads = s.reads - 1 } in
    if not failed && not (is_empty bytes)
    then start_read (if s.writing then s' else start_write s')
    else record s' { is_open = false }

-- A write completes: without an error the whole buffer is written and consumed; `on_write` runs.
unfoldable pub on_write : Bool → Session → Session
on_write failed s =
    let s' = record s { writes = s.writes - 1; writing = false } in
    if failed
    then record s' { is_open = false }
    else record s' { written = s.written ++ s.outstreambuffer; outstreambuffer = [] }
