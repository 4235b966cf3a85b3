-- ===== src/EchoServer/Bounds.antt =====
-- tcp_echo_server_circularbuffer_multithreaded.cpp: where the buffer sequences lie, for the
-- capacity that the session gives its buffer.
use networking_cpp_intro.Common.{
  ℕ, ◌+◌, ◌%◌, ◌^◌, ◌≤◌, ◌<◌, ◌≡◌, ◌≢◌, List, [], ◌∷◌, some, arith, All,
}
use networking_cpp_intro.EchoServer.{
  CircularBuffer, buffered, make_sequence, prepare, commit, consume,
}

-- `CircularBuffer<65536>`
abbrev pub session_capacity : ℕ
session_capacity = 65536

abbrev pub IsInside : ℕ × ℕ → Type 0
IsInside (place, len) = place + len ≤ session_capacity

abbrev pub total : List (ℕ × ℕ) → ℕ
total [] = 0
total ((place, len) ∷ rest) = len + total rest

-- Fewer bytes than the capacity: the sequence lies inside the array and has as many bytes as asked for.
pub make_sequence-IsInside :
    (start n : ℕ)
    → start < 2 ^ 64
    → n < session_capacity
    → All IsInside (make_sequence session_capacity start ((start + n) % 2 ^ 64))
      × (total (make_sequence session_capacity start ((start + n) % 2 ^ 64)) ≡ n)
unfolding make_sequence
make_sequence-IsInside start n small short = ground arith

-- A full buffer that does not begin at a multiple of the capacity: the sequence is a single stretch
-- of the whole capacity that runs past the end of the array.
pub full_buffer_overruns :
    (start : ℕ)
    → start < 2 ^ 64
    → start % session_capacity ≢ 0
    → (make_sequence session_capacity start ((start + session_capacity) % 2 ^ 64)
        ≡ (start % session_capacity, session_capacity) ∷ [])
      × (session_capacity < start % session_capacity + session_capacity)
unfolding make_sequence
full_buffer_overruns start small off = ground arith

-- A buffer whose counters are `size_t` and which holds no more than the capacity.
pub record IsValid (b : CircularBuffer) : Type 0 where
  pub head_fits : b.head < 2 ^ 64
  pub tail_fits : b.tail < 2 ^ 64
  pub within : buffered b ≤ session_capacity

-- Storage that was prepared can be committed, and what is buffered can be consumed: the
-- buffer stays valid, also where the counters wrap around, and its size changes by just that number.
pub prepare-commit-consume :
    (n k : ℕ) (b : CircularBuffer) (places : List (ℕ × ℕ))
    → IsValid b
    → n < 2 ^ 63
    → prepare session_capacity n b ≡ some places
    → k ≤ buffered b + n
    → (buffered (commit n b) ≡ buffered b + n)
      × (buffered (consume k (commit n b)) + k ≡ buffered b + n)
      × IsValid (consume k (commit n b))
unfolding prepare commit consume buffered
prepare-commit-consume n k b places v small ok within_data = (
  ground arith,
  ground arith,
  record { head_fits = ground arith; tail_fits = ground arith; within = ground arith },
)
