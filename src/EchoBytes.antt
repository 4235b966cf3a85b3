-- ===== src/EchoBytes.antt =====
-- other_ressources/async_io_with_cpp/tcp_echo_server_efficient_data_read_write.cpp: the circular buffer
-- with its bytes, and the session that reads into it and writes from it. A buffer sequence is a list
-- of places in the array, each with a length. `std::size_t` has 64 bits.
pub mod Places
pub mod Fifo
mod Tests
use networking_cpp_intro.Common.{
  ℕ, zero, suc, ◌+◌, ◌-◌, ◌%◌, ◌^◌, ◌==◌, ltb, leb, if◌then◌else◌, Bool, true, false, not, ◌&&◌,
  List, [], ◌∷◌, ◌++◌, Option, none, some, length, take, map,
}

-- `buffer` gives the byte at each place of the array.
pub record CircularBuffer : Type 0 where
  pub buffer : ℕ → ℕ
  pub head : ℕ
  pub tail : ℕ

-- `size`
unfoldable pub stored : CircularBuffer → ℕ
stored b = (2 ^ 64 + b.tail - b.head) % 2 ^ 64

-- `Capacity` is a template parameter. `&buffer[begin]` is the place `begin`.
unfoldable pub make_sequence : ℕ → ℕ → ℕ → List (ℕ × ℕ)
make_sequence capacity begin_ end_ =
    let size = (2 ^ 64 + end_ - begin_) % 2 ^ 64 in
    let b = begin_ % capacity in
    let e = end_ % capacity in
    let ending = capacity - b in
    if leb b e then (b, size) ∷ [] else (b, ending) ∷ (0, (2 ^ 64 + size - ending) % 2 ^ 64) ∷ []

-- `none` is the `length_error`.
unfoldable pub prepare : ℕ → ℕ → CircularBuffer → Option (List (ℕ × ℕ))
prepare capacity n b =
    if ltb capacity ((stored b + n) % 2 ^ 64)
    then none
    else some (make_sequence capacity b.tail ((b.tail + n) % 2 ^ 64))

-- With the parameter `n` that the body and `CircularBufferView::commit` name.
unfoldable pub commit : ℕ → CircularBuffer → CircularBuffer
commit n b = record b { tail = (b.tail + n) % 2 ^ 64 }

unfoldable pub consume : ℕ → CircularBuffer → CircularBuffer
consume n b = record b { head = (b.head + n) % 2 ^ 64 }

unfoldable pub data_sequence : ℕ → CircularBuffer → List (ℕ × ℕ)
data_sequence capacity b = make_sequence capacity b.head b.tail

-- What the I/O service is documented to do with a sequence, whose buffers it fills and reads in their
-- order: its places, the bytes put there, and the bytes
-- taken from there.
abbrev pub stretch : ℕ → ℕ → List ℕ
stretch place zero = []
stretch place (suc n) = place ∷ stretch (place + 1) n

abbrev pub places : List (ℕ × ℕ) → List ℕ
places [] = []
places ((place, n) ∷ more) = stretch place n ++ places more

abbrev pub set_cell : ℕ → ℕ → (ℕ → ℕ) → ℕ → ℕ
set_cell p x cells q = if q == p then x else cells q

unfoldable pub put : List ℕ → List ℕ → (ℕ → ℕ) → ℕ → ℕ
put [] bytes cells = cells
put (p ∷ ps) [] cells = cells
put (p ∷ ps) (x ∷ bytes) cells = put ps bytes (set_cell p x cells)

unfoldable pub get : List ℕ → (ℕ → ℕ) → List ℕ
get ps cells = map cells ps

-- `CircularBuffer<65536>`
abbrev pub session_capacity : ℕ
session_capacity = 65536

-- The bytes that are stored, as a write takes them.
unfoldable pub contents : CircularBuffer → List ℕ
contents b = get (places (data_sequence session_capacity b)) b.buffer

-- A read that asks for at most `n` bytes and gives some: they are put into the prepared sequence and committed.
unfoldable pub fill : ℕ → List ℕ → CircularBuffer → Option CircularBuffer
fill n bytes b = elim (prepare session_capacity n b) [
  | none ↦ none
  | some sequence ↦
      some (commit (length bytes) (record b { buffer = put (places sequence) bytes b.buffer }))
]

-- `Session`, with the numbers of reads and writes that the I/O service has in hand.
pub record Session : Type 0 where
  pub buffer_ : CircularBuffer
  pub writing : Bool
  pub is_open : Bool
  pub reads : ℕ
  pub writes : ℕ

-- `read`, `write` and `close`
abbrev pub start_read : Session → Session
start_read s = record s { reads = s.reads + 1 }

abbrev pub start_write : Session → Session
start_write s = record s { writing = true; writes = s.writes + 1 }

abbrev pub close : Session → Session
close s = record s { is_open = false }

-- The members of a new session, whose array is not initialised, and `start`.
abbrev pub started : (ℕ → ℕ) → Session
started cells = start_read (record {
  buffer_ = record { buffer = cells; head = 0; tail = 0 };
  writing = false;
  is_open = true;
  reads = 0;
  writes = 0;
})

unfoldable pub on_read : Bool → ℕ → Session → Session
on_read failed bytes_transferred s =
    if not failed && ltb 0 bytes_transferred
    then start_read (if s.writing then s else start_write s)
    else close s

unfoldable pub on_write : Bool → Session → Session
on_write failed s =
    let s' = record s { writing = false } in
    if failed then close s' else if ltb 0 (stored s'.buffer_) then start_write s' else s'

-- A read that asks for at most `n` bytes completes; how many it asks for, up to the whole capacity for a
-- buffer that stores nothing, is the choice of `async_read` of Boost.Asio. The bytes are in the buffer, and `on_read` runs.
unfoldable pub read_completes : Bool → ℕ → List ℕ → Session → Option Session
read_completes failed n bytes s = elim (fill n bytes s.buffer_) [
  | none ↦ none
  | some b ↦ some (on_read failed (length bytes) (record s { buffer_ = b; reads = s.reads - 1 }))
]

-- A write completes with `n` bytes transferred: the view has consumed them, and `on_write` runs.
unfoldable pub write_completes : Bool → ℕ → Session → Session
write_completes failed n s =
    on_write failed (record s { buffer_ = consume n s.buffer_; writes = s.writes - 1 })
