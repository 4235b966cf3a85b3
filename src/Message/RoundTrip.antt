-- ===== src/Message/RoundTrip.antt =====
-- net_message.hpp: `operator>>` takes out what `operator<<` put in, last value first.
use networking_cpp_intro.Common.{
  ℕ, ◌+◌, ◌-◌, ◌*◌, ◌%◌, ◌^◌, ◌≤◌, ◌<◌, ◌≡◌, List, ◌++◌, arith, length, take, drop, some,
  take-append_eq, drop-append_eq, replicate-zero, append-nil, length-take, length-drop, refl,
  le→leb, Option, none, Option-cases, inl, inr, reverse-cons, [], ◌∷◌, ◌>>=◌, reverse, map,
}
use networking_cpp_intro.Message.{Message, elements, size, resize, push, pull}
use networking_cpp_intro.Message.Laws.{
  IsValid, push-IsValid, payload-push, size-push, length-push, header-push, length-resize,
}

module _ (m : Message) (v : List ℕ) (valid : IsValid m) where
  value_at-push : take (length v) (drop (4 * size m) (push m v).payload) ≡ v
  value_at-push =
      rw (payload-push m v valid.whole, drop-append_eq (4 * size m) m.payload _ (omega arith))
        (take-append_eq (length v) v _ (omega arith))

  resize-push : resize (size m) (push m v).payload ≡ m.payload
  resize-push =
      rw
        (
          length-push m v valid.whole,
          payload-push m v valid.whole,
          take-append_eq (4 * size m) m.payload _ (omega arith),
          replicate-zero {A = ℕ} (4 * size m - 4 * (size m + length v)) 0 (omega arith),
        )
        (append-nil m.payload)

  start-push : size m + length v < 2 ^ 32 → (2 ^ 64 + size (push m v) - length v) % 2 ^ 64 ≡ size m
  start-push fits = omega (arith, size-push m v valid.whole)

-- Reading back a value of its own size from a well-formed message of a size below 2^32 gives the
-- value, and the message as it was before.
pub pull-push :
    (m : Message) (v : List ℕ)
    → IsValid m
    → size m + length v < 2 ^ 32
    → pull (push m v) (length v) ≡ some (v, m)
unfolding pull
pull-push m v valid fits =
    rw
      (
        start-push m v valid fits,
        value_at-push m v valid,
        resize-push m v valid,
        header-push m v valid.whole,
        le→leb (4 * size m + length v) (length (push m v).payload) in_bounds,
        same_size,
      )
      refl
  where
    in_bounds : 4 * size m + length v ≤ length (push m v).payload
    in_bounds = omega (arith, length-push m v valid.whole)

    same_size : size m % 2 ^ 32 ≡ m.header.size
    same_size = omega (arith, valid.stated)

-- `msg << v1 << v2 << ...`
unfoldable pub push_all : Message → List (List ℕ) → Message
push_all m [] = m
push_all m (v ∷ vs) = push_all (push m v) vs

-- `msg >> x1 >> x2 >> ...` for variables of the given sizes.
unfoldable pub pull_all : Message → List ℕ → Option (List (List ℕ) × Message)
pull_all m [] = some ([], m)
pull_all m (n ∷ ns) = do (v, m') ← pull m n; (vs, m'') ← pull_all m' ns; some (v ∷ vs, m'')

abbrev pub total_length : List (List ℕ) → ℕ
total_length [] = 0
total_length (v ∷ vs) = length v + total_length vs

-- One more read after a chain of reads.
abbrev then_pull : ℕ → List (List ℕ) × Message → Option (List (List ℕ) × Message)
then_pull n (vs, m) = pull m n >>= λ r. some (vs ++ r.0 ∷ [], r.1)

pull_all-append :
    (ns : List ℕ) (n : ℕ) (m : Message)
    → pull_all m (ns ++ n ∷ []) ≡ (pull_all m ns >>= then_pull n)
unfolding pull_all
pull_all-append [] n m = refl
pull_all-append (j ∷ ns) n m = elim (Option-cases (pull m j)) [
  | inl e ↦ rw e
  | inr (r, e) ↦ rw (e, pull_all-append ns n r.1) (ground arith)
]

-- Any chain of values that a well-formed message takes with its size below 2^32 is read back in the
-- opposite order, and leaves the message as it was.
pub pull_all-push_all :
    (vs : List (List ℕ)) (m : Message)
    → IsValid m
    → size m + total_length vs < 2 ^ 32
    → pull_all (push_all m vs) (reverse (map length vs)) ≡ some (reverse vs, m)
unfolding push_all
pull_all-push_all [] m valid fits = unfold pull_all in refl
pull_all-push_all (v ∷ vs) m valid fits =
    rw
      (
        reverse-cons (length v) (map length vs),
        reverse-cons v vs,
        pull_all-append (reverse (map length vs)) (length v),
        pull_all-push_all vs (push m v) (push-IsValid m v valid small) rest,
        pull-push m v valid small,
      )
      refl
  where
    small : size m + length v < 2 ^ 32
    small = omega arith

    rest : size (push m v) + total_length vs < 2 ^ 32
    rest = omega (arith, size-push m v valid.whole)

-- The message cut down to its first `k` elements.
abbrev pub shrink : ℕ → Message → Message
shrink k m = record {
  header = record { id = m.header.id; size = elements (resize k m.payload) % 2 ^ 32 };
  payload = resize k m.payload;
}

shrink-IsValid : (k : ℕ) (m : Message) → k < 2 ^ 32 → IsValid (shrink k m) × (size (shrink k m) ≡ k)
shrink-IsValid k m h = (
  record {
    whole = omega (arith, length-resize k m.payload);
    stated = omega (arith, length-resize k m.payload);
  },
  omega (arith, length-resize k m.payload),
)

pub pull_at :
    (m : Message) (n : ℕ)
    → IsValid m
    → size m < 2 ^ 32
    → n ≤ size m
    → pull m n ≡ some (take n (drop (4 * (size m - n)) m.payload), shrink (size m - n) m)
unfolding pull
pull_at m n valid small fits = rw (start, le→leb (4 * (size m - n) + n) (length m.payload) inside)
  where
    start : (2 ^ 64 + size m - n) % 2 ^ 64 ≡ size m - n
    start = omega arith

    inside : 4 * (size m - n) + n ≤ length m.payload
    inside = omega (arith, valid.whole)

-- A read within the payload of a well-formed message gives a value of the size asked for, and leaves a well-formed message
-- that is smaller by that many elements.
pub pull_within :
    (m : Message) (n : ℕ)
    → IsValid m
    → size m < 2 ^ 32
    → n ≤ size m
    → (v : List ℕ) × (m' : Message) × (pull m n ≡ some (v, m'))
      × (length v ≡ n)
      × IsValid m'
      × (size m' + n ≡ size m)
pull_within m n valid small fits = (
  take n (drop (4 * (size m - n)) m.payload),
  shrink (size m - n) m,
  pull_at m n valid small fits,
  omega (
    arith,
    valid.whole,
    length-take n (drop (4 * (size m - n)) m.payload),
    length-drop (4 * (size m - n)) m.payload,
  ),
  (shrink-IsValid (size m - n) m (omega arith)).0,
  omega (arith, (shrink-IsValid (size m - n) m (omega arith)).1),
)

-- A read that asks for more bytes than the payload of a well-formed message has elements is outside
-- the storage.
pub pull_outside : (m : Message) (n : ℕ) → IsValid m → size m < n → n ≤ 2 ^ 64 → pull m n ≡ none
unfolding pull
pull_outside m n valid short h = ground (arith, valid.whole)
