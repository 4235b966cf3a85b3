-- ===== src/EchoServer.antt =====
-- other_ressources/async_io_with_cpp/tcp_echo_server_circularbuffer_multithreaded.cpp: the circular
-- buffer and the session of the echo server. A buffer sequence is a list of places in the
-- array, each with a length; which bytes stand there is up to the I/O service. `std::size_t` has 64 bits.
pub mod Bounds
pub mod Contexts
pub mod Accepting
pub mod Program
pub mod Flow
mod Tests
use networking_cpp_intro.Common.{
  ℕ, ◌+◌, ◌-◌, ◌%◌, ◌^◌, ltb, leb, if◌then◌else◌, Bool, true, false, not, ◌&&◌, List, [], ◌∷◌,
  Option, none, some,
}

pub record CircularBuffer : Type 0 where
  pub head : ℕ
  pub tail : ℕ

-- `size`
unfoldable pub buffered : CircularBuffer → ℕ
buffered b = (2 ^ 64 + b.tail - b.head) % 2 ^ 64

-- `Capacity` is a template parameter. `&buffer[begin]` is the place `begin`.
unfoldable pub make_sequence : ℕ → ℕ → ℕ → List (ℕ × ℕ)
make_sequence capacity begin_ end_ =
    let size = (2 ^ 64 + end_ - begin_) % 2 ^ 64 in
    let b = begin_ % capacity in
    let e = end_ % capacity in
    let ending = capacity - b in
    if leb b e then (b, size) ∷ [] else (b, ending) ∷ (0, (2 ^ 64 + size - ending) % 2 ^ 64) ∷ []

-- `none` is the `length_error`.
unfoldable pub prepare : ℕ → ℕ → CircularBuffer → Option (List (ℕ × ℕ))
unfolding buffered make_sequence
prepare capacity n b =
    if ltb capacity ((buffered b + n) % 2 ^ 64)
    then none
    else some (make_sequence capacity b.tail ((b.tail + n) % 2 ^ 64))

-- With the parameter `n` that the body and `CircularBufferView::commit` name.
unfoldable pub commit : ℕ → CircularBuffer → CircularBuffer
commit n b = record b { tail = (b.tail + n) % 2 ^ 64 }

unfoldable pub consume : ℕ → CircularBuffer → CircularBuffer
consume n b = record b { head = (b.head + n) % 2 ^ 64 }

unfoldable pub data_sequence : ℕ → CircularBuffer → List (ℕ × ℕ)
unfolding make_sequence
data_sequence capacity b = make_sequence capacity b.head b.tail

-- `Session`, with the numbers of reads and writes that the I/O service has in hand.
pub record Session : Type 0 where
  pub buffer : CircularBuffer
  pub writing : Bool
  pub is_open : Bool
  pub reads : ℕ
  pub writes : ℕ

-- `read` and `write`
abbrev pub start_read : Session → Session
start_read s = record s { reads = s.reads + 1 }

abbrev pub start_write : Session → Session
start_write s = record s { writing = true; writes = s.writes + 1 }

-- The constructor and `start`
abbrev pub started : Session
started = start_read (record {
  buffer = record { head = 0; tail = 0 };
  writing = false;
  is_open = true;
  reads = 0;
  writes = 0;
})

-- A read completes: the view has committed what was transferred, and `on_read` runs.
pub on_read : Bool → ℕ → Session → Session
unfolding commit
on_read failed bytes_transferred s =
    let s' = record s { buffer = commit bytes_transferred s.buffer; reads = s.reads - 1 } in
    if not failed && ltb 0 bytes_transferred
    then start_read (if s.writing then s' else start_write s')
    else record s' { is_open = false }

-- A write completes: the view has consumed what was transferred, and `on_write` runs.
pub on_write : Bool → ℕ → Session → Session
unfolding consume buffered
on_write failed bytes_transferred s =
    let s' = record s {
      buffer = consume bytes_transferred s.buffer;
      writes = s.writes - 1;
      writing = false;
    } in
    if failed
    then record s' { is_open = false }
    else if ltb 0 (buffered s'.buffer)
    then start_write s'
    else s'
