-- ===== src/EchoServer/Tests.antt =====
-- Runs of the echo server's session.
use networking_cpp_intro.Common.{
  ℕ, ◌+◌, ◌<◌, ◌-◌, ◌%◌, ◌^◌, ◌≡◌, ◌≢◌, refl, List, [], ◌∷◌, some, arith,
}
use networking_cpp_intro.EchoServer.{CircularBuffer, buffered, make_sequence, prepare}
use networking_cpp_intro.EchoServer.Bounds.{session_capacity, IsValid, full_buffer_overruns}

-- The two stretches of that sequence.
looped : make_sequence session_capacity 65530 65540 ≡ (65530, 6) ∷ (0, 4) ∷ []
unfolding make_sequence
looped = refl

off_zero : 65537 % session_capacity ≢ 0
off_zero = λ e. absurd (omega arith)

full_buffer_overruns_example :
    (make_sequence session_capacity 65537 ((65537 + session_capacity) % 2 ^ 64)
      ≡ (65537 % session_capacity, session_capacity) ∷ [])
    × (session_capacity < 65537 % session_capacity + session_capacity)
full_buffer_overruns_example = full_buffer_overruns 65537 (omega arith) off_zero

-- The tail is close to the end of `size_t`.
abbrev high : CircularBuffer
high = record { head = 2 ^ 64 - 10; tail = 2 ^ 64 - 2 }

high-IsValid : IsValid high
unfolding buffered
high-IsValid = record { head_fits = omega arith; tail_fits = omega arith; within = omega arith }

high_prepared :
    (places : List (ℕ × ℕ)) × (prepare session_capacity 5 high ≡ some places) × (buffered high ≡ 8)
unfolding prepare buffered
high_prepared = (_, refl, refl)
