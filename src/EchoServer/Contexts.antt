-- ===== src/EchoServer/Contexts.antt =====
-- tcp_echo_server_circularbuffer_multithreaded.cpp: `IoContextGroup`, which hands its I/O services out in
-- turn. A context is its place in `contexts_`; the threads that run the contexts are left out.
use networking_cpp_intro.Common.{
  ℕ, zero, suc, ◌+◌, ◌-◌, ◌%◌, ◌^◌, ◌≤◌, ◌<◌, ◌==◌, ◌≡◌, ◌⊎◌, refl, sym, ap, ◌∙◌, if◌then◌else◌,
  List, [], ◌∷◌, ◌++◌, Option, none, some, arith, le_or_lt, inl, inr,
}
use native.Mathlib.Nat.{mod-eq_of_lt, mod-add-mod, mod_self, mod-lt}

-- `guards` is the number of work guards.
pub record IoContextGroup : Type 0 where
  pub contexts : ℕ
  pub guards : ℕ
  pub index : ℕ

-- The loop of the constructor: `emplace_back()` adds a `shared_ptr` that is null, and the line for the guard
-- follows it, which is undefined behaviour (`none`).
unfoldable pub make_contexts : ℕ → IoContextGroup → Option IoContextGroup
make_contexts zero group = some group
make_contexts (suc n) group = none

abbrev pub make_group : ℕ → Option IoContextGroup
make_group size = make_contexts size (record { contexts = 0; guards = 0; index = 0 })

-- The number is `std::atomic<std::size_t>`: no two calls see the same one. Of a group without a context it is
-- undefined behaviour; `run` makes a thread for each context, and is never called.
unfoldable pub query : IoContextGroup → ℕ × IoContextGroup
query group = (group.index % group.contexts, record group { index = (group.index + 1) % 2 ^ 64 })

-- The contexts that further calls give.
unfoldable pub queries : ℕ → IoContextGroup → List ℕ
queries zero group = []
queries (suc n) group = (query group).0 ∷ queries n (query group).1

abbrev pub times : ℕ → List ℕ → ℕ
times c [] = 0
times c (x ∷ xs) = if x == c then times c xs + 1 else times c xs

-- `k` numbers from `i` on, each below `n`, going on with 0.
abbrev turns : ℕ → ℕ → ℕ → List ℕ
turns n i zero = []
turns n i (suc k) = i % n ∷ turns n (i + 1) k

abbrev upward : ℕ → ℕ → List ℕ
upward a zero = []
upward a (suc k) = a ∷ upward (a + 1) k

next_turn : (n i j : ℕ) → i % n ≡ j % n → (i + 1) % n ≡ (j + 1) % n
next_turn n i j h = cc (mod-add-mod i n 1, mod-add-mod j n 1, h)

turns_congr : (n i j k : ℕ) → i % n ≡ j % n → turns n i k ≡ turns n j k
turns_congr n i j zero h = refl
turns_congr n i j (suc k) h = cc (h, turns_congr n (i + 1) (j + 1) k (next_turn n i j h))

turns_add : (n i k l : ℕ) → turns n i (k + l) ≡ turns n i k ++ turns n (i + k) l
turns_add n i zero l = grind (arith, turns_congr n i (i + 0) l (ap (λ x. x % n) (omega arith)))
turns_add n i (suc k) l =
    let same : i + 1 + k ≡ i + suc k = omega arith in grind (arith, turns_add n (i + 1) k l, same)

turns-upward : (n i k : ℕ) → i % n + k ≤ n → turns n i k ≡ upward (i % n) k
turns-upward n i zero h = refl
turns-upward n i (suc zero) h = refl
turns-upward n i (suc (suc k)) h =
    let more : (i + 1) % n ≡ i % n + 1 = sym (mod-add-mod i n 1) ∙ mod-eq_of_lt (omega arith) in
    grind (arith, turns-upward n (i + 1) (suc k) (omega (arith, more)), more)

times_outside : (c a k : ℕ) → (c < a) ⊎ (a + k ≤ c) → times c (upward a k) ≡ 0
times_outside c a zero h = refl
times_outside c a (suc k) h = ground (arith, times_outside c (a + 1) k)

times_inside : (c a k : ℕ) → a ≤ c → c < a + k → times c (upward a k) ≡ 1
times_inside c a zero h l = absurd (omega arith)
times_inside c a (suc k) h l = ground (arith, times_inside c (a + 1) k, times_outside c (a + 1) k)

times-append : (c : ℕ) (xs ys : List ℕ) → times c (xs ++ ys) ≡ times c xs + times c ys
times-append c [] ys = omega arith
times-append c (x ∷ xs) ys = ground (arith, times-append c xs ys)

queries-turns :
    (k : ℕ) (group : IoContextGroup)
    → group.index + k ≤ 2 ^ 64
    → queries k group ≡ turns group.contexts group.index k
unfolding queries query
queries-turns zero group h = refl
queries-turns (suc zero) group h = refl
queries-turns (suc (suc k)) group h =
    let group' = (query group).1 in
    let same : (group.index + 1) % 2 ^ 64 ≡ group.index + 1 = omega arith in
    cc (queries-turns (suc k) group' (omega (arith, same)), same)

turns_once : (n i c : ℕ) → c < n → times c (turns n i n) ≡ 1
turns_once n i c fits =
    let r = i % n in
    let first = n - r in
    let less : r < n = mod-lt i (omega arith) in
    let whole : first + r ≡ n = omega (arith, less) in
    let round : r + first ≡ n = omega (arith, less) in
    let zero_next : (i + first) % n ≡ 0 = cc (mod-add-mod i n first, mod_self n, round) in
    let none_yet : 0 % n ≡ 0 = mod-eq_of_lt (omega (arith, fits)) in
    let before = turns-upward n i first (omega (arith, less)) in
    let after = turns-upward n 0 r (omega (arith, none_yet, less)) in
    let split : turns n i n ≡ upward r first ++ upward 0 r = cc (
      ap (turns n i) whole,
      turns_add n i first r,
      before,
      after,
      none_yet,
      turns_congr n (i + first) 0 r (cc (zero_next, none_yet)),
    ) in
    let count = times-append c (upward r first) (upward 0 r) in
    elim (le_or_lt r c) [
      | inl behind ↦
          let one = times_inside c r first behind (omega arith) in
          let other = times_outside c 0 r (inr (omega arith)) in
          omega (arith, ap (times c) split, count, one, other)
      | inr front ↦
          let one = times_inside c 0 r (omega arith) (omega arith) in
          let other = times_outside c r first (inl front) in
          omega (arith, ap (times c) split, count, one, other)
    ]

-- `n` calls in a row to a group of `n` contexts, as long as the counter does not wrap around, give
-- each context exactly once, whatever calls there were before.
pub each_once :
    (size c : ℕ) (group : IoContextGroup)
    → group.contexts ≡ size
    → c < size
    → group.index + size ≤ 2 ^ 64
    → times c (queries size group) ≡ 1
each_once size c group is fits small =
    let same = queries-turns size group small in cc (same, is, turns_once size group.index c fits)
