-- ===== src/EchoBytes/Places.antt =====
-- tcp_echo_server_efficient_data_read_write.cpp: the places that the buffer sequences name.
use networking_cpp_intro.Common.{
  ℕ, zero, suc, ◌+◌, ◌-◌, ◌%◌, ◌^◌, ◌≤◌, ◌<◌, ◌≡◌, refl, ap, List, [], ◌∷◌, ◌++◌, inl, inr,
  le_or_lt, arith, append-nil,
}
use networking_cpp_intro.EchoBytes.{make_sequence, stretch, places, session_capacity}

-- `n` places from the counter `t` on, around the array.
abbrev pub ring : ℕ → ℕ → List ℕ
ring t zero = []
ring t (suc n) = t % session_capacity ∷ ring (t + 1) n

pub ring_congr : (t u n : ℕ) → t % session_capacity ≡ u % session_capacity → ring t n ≡ ring u n
ring_congr t u zero h = refl
ring_congr t u (suc n) h = grind (arith, ring_congr (t + 1) (u + 1) n (omega arith))

pub ring_add : (t m n : ℕ) → ring t (m + n) ≡ ring t m ++ ring (t + m) n
ring_add t zero n = grind (arith, ring_congr t (t + 0) n (omega arith))
ring_add t (suc m) n =
    let next = ring_congr (t + 1 + m) (t + suc m) n (omega arith) in
    grind (arith, ring_add (t + 1) m n, next)

ring-stretch :
    (t n : ℕ)
    → t % session_capacity + n ≤ session_capacity
    → ring t n ≡ stretch (t % session_capacity) n
ring-stretch t zero h = refl
ring-stretch t (suc zero) h = refl
ring-stretch t (suc (suc n)) h =
    let next = ring-stretch (t + 1) (suc n) (omega arith) in grind (arith, next)

-- The sequence in one piece, and in two.
make_flat :
    (t n : ℕ)
    → t < 2 ^ 64
    → n < session_capacity
    → t % session_capacity + n < session_capacity
    → make_sequence session_capacity t ((t + n) % 2 ^ 64) ≡ (t % session_capacity, n) ∷ []
unfolding make_sequence
make_flat t n small short flat = ground arith

make_looped :
    (t n : ℕ)
    → t < 2 ^ 64
    → n < session_capacity
    → session_capacity ≤ t % session_capacity + n
    → make_sequence session_capacity t ((t + n) % 2 ^ 64)
      ≡ (t % session_capacity, session_capacity - t % session_capacity)
        ∷ (0, n - (session_capacity - t % session_capacity))
        ∷ []
unfolding make_sequence
make_looped t n small short looped = ground arith

-- For fewer bytes than the capacity the places of the sequence go once around the array.
pub places-make_sequence :
    (t n : ℕ)
    → t < 2 ^ 64
    → n < session_capacity
    → places (make_sequence session_capacity t ((t + n) % 2 ^ 64)) ≡ ring t n
places-make_sequence t n small short = elim (le_or_lt session_capacity (t % session_capacity + n)) [
  | inr flat ↦ cc (
    make_flat t n small short flat,
    ring-stretch t n (omega arith),
    append-nil (stretch (t % session_capacity) n),
  )
  | inl looped ↦
      let first = session_capacity - t % session_capacity in
      let rest = n - first in
      let whole : first + rest ≡ n = omega arith in
      cc (
        make_looped t n small short looped,
        ring_add t first rest,
        ring-stretch t first (omega arith),
        ring_congr (t + first) 0 rest (omega arith),
        ring-stretch 0 rest (omega arith),
        append-nil (stretch 0 rest),
        ap (ring t) whole,
      )
]
