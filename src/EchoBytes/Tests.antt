-- ===== src/EchoBytes/Tests.antt =====
-- Runs of the session with its bytes.
use networking_cpp_intro.Common.{ℕ, ◌≡◌, ◌≢◌, refl, [], ◌∷◌, none, arith}
use networking_cpp_intro.EchoBytes.{
  CircularBuffer, session_capacity, stored, make_sequence, prepare, data_sequence, fill,
}
use networking_cpp_intro.EchoBytes.Fifo.{IsValid}

abbrev blank : ℕ → ℕ
blank place = 0

-- Two bytes are stored, at the end of the array and at its front, with counters about to wrap around.
abbrev around : CircularBuffer
around = record { buffer = blank; head = 18446744073709551615; tail = 1 }

around-IsValid : IsValid around
unfolding stored
around-IsValid = record { head_fits = omega arith; tail_fits = omega arith; below = omega arith }

fill-around : fill 3 (7 ∷ 8 ∷ 9 ∷ []) around ≢ none
unfolding fill prepare stored
fill-around = ground arith

put_around : data_sequence session_capacity around ≡ (65535, 1) ∷ (0, 1) ∷ []
unfolding data_sequence make_sequence
put_around = refl
