-- ===== src/TsQueue/Laws.antt =====
-- net_ts_queue.hpp: what one end of the queue takes out is what went in there last, and the two ends
-- together keep the order of arrival.
use networking_cpp_intro.Common.{
  ℕ, zero, suc, ◌+◌, ◌≡◌, refl, sym, ap, ◌∙◌, List, [], ◌∷◌, ◌++◌, append-nil, append_assoc, Option,
  some, length, length-append, ◌>>=◌,
}
use networking_cpp_intro.TsQueue.{back, push_back, pop_front, pop_back, init}

module _ {ℓ} {A : Type ℓ} where
  back-append : (x : A) (q : List A) → back (q ++ x ∷ []) ≡ some x
  back-append x [] = refl
  back-append x (y ∷ []) = refl
  back-append x (y ∷ z ∷ q) = back-append x (z ∷ q)

  init-append : (x : A) (q : List A) → init (q ++ x ∷ []) ≡ q
  init-append x [] = refl
  init-append x (y ∷ []) = refl
  init-append x (y ∷ z ∷ q) = ap (◌∷◌ y) (init-append x (z ∷ q))

  -- An element added at the back is the one that the back gives, whatever was in the queue.
  pub pop_back-push_back : (x : A) (q : List A) → pop_back (push_back x q) ≡ some (x, q)
  pop_back-push_back x [] = refl
  pop_back-push_back x (y ∷ q) = rw (back-append x (y ∷ q), init-append x (y ∷ q)) refl

  -- Elements added at the back in turn, and then taken from the front, as many times.
  pub push_all : List A → List A → List A
  push_all [] q = q
  push_all (x ∷ xs) q = push_all xs (push_back x q)

  pub pop_all : ℕ → List A → Option (List A × List A)
  pop_all zero q = some ([], q)
  pop_all (suc n) q = do (x, q') ← pop_front q; (xs, q'') ← pop_all n q'; some (x ∷ xs, q'')

  push_all-append : (xs q : List A) → push_all xs q ≡ q ++ xs
  unfolding push_all
  push_all-append [] q = sym (append-nil q)
  push_all-append (x ∷ xs) q = push_all-append xs (push_back x q) ∙ append_assoc q (x ∷ []) xs

  pop_all-append : (xs q : List A) → pop_all (length xs) (xs ++ q) ≡ some (xs, q)
  unfolding pop_all
  pop_all-append [] q = refl
  pop_all-append (x ∷ xs) q = rw (pop_all-append xs q)

  -- First in, first out: taking as many elements as were there and have been added gives the old ones
  -- and then the new ones, in the order in which they came, and leaves the queue empty.
  pub fifo : (xs q : List A) → pop_all (length q + length xs) (push_all xs q) ≡ some (q ++ xs, [])
  fifo xs q =
      rw (push_all-append xs q)
        (rw (length-append q xs, append-nil (q ++ xs)) at (pop_all-append (q ++ xs) []))
