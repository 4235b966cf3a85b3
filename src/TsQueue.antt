-- ===== src/TsQueue.antt =====
-- include/custom_net_lib/net_ts_queue.hpp: `TsNetQueue`, the queue that threads share. Every operation
-- but `wait` holds `mutex_q_` from its first line to its last, so each is one step on the contents.
-- `none` is `front`, `back` or a pop of an empty `std::deque`, which is undefined.
pub mod Laws
pub mod Wakeup
mod Tests
use networking_cpp_intro.Common.{
  ℕ, Bool, true, false, List, [], ◌∷◌, ◌++◌, Option, none, some, length, ◌>>=◌,
}

module _ {ℓ} {A : Type ℓ} where
  abbrev pub front : List A → Option A
  front [] = none
  front (x ∷ xs) = some x

  abbrev pub back : List A → Option A
  back [] = none
  back (x ∷ []) = some x
  back (x ∷ y ∷ ys) = back (y ∷ ys)

  abbrev pub push_back : A → List A → List A
  push_back x q = q ++ x ∷ []

  abbrev pub push_front : A → List A → List A
  push_front x q = x ∷ q

  abbrev pub is_empty : List A → Bool
  is_empty [] = true
  is_empty (x ∷ xs) = false

  abbrev pub count : List A → ℕ
  count q = length q

  abbrev pub clear : List A → List A
  clear q = []

  abbrev pub pop_front : List A → Option (A × List A)
  pop_front [] = none
  pop_front (x ∷ xs) = some (x, xs)

  -- All but the last element.
  abbrev pub init : List A → List A
  init [] = []
  init (x ∷ []) = []
  init (x ∷ y ∷ ys) = x ∷ init (y ∷ ys)

  abbrev pub pop_back : List A → Option (A × List A)
  pop_back q = back q >>= λ x. some (x, init q)
