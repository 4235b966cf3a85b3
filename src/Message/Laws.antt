-- ===== src/Message/Laws.antt =====
-- net_message.hpp: what `operator<<` does to a well-formed message.
use networking_cpp_intro.Common.{
  ℕ, ◌+◌, ◌-◌, ◌*◌, ◌%◌, ◌^◌, ◌≤◌, ◌<◌, ◌≡◌, ap, List, ◌++◌, arith, length, take, drop, replicate,
  length-append, length-take, length-drop, length-replicate, take-append_eq, take_of_le,
  drop-add-append, drop-replicate,
}
use networking_cpp_intro.Message.{Message, MessageHeader, size, resize, overwrite, push}

-- The memory is a whole number of elements, and the header states their number.
pub record IsValid (m : Message) : Type 0 where
  pub whole : length m.payload ≡ 4 * size m
  pub stated : m.header.size ≡ size m

pub length-resize : (n : ℕ) (raw : List ℕ) → length (resize n raw) ≡ 4 * n
length-resize n raw = omega (
  arith,
  length-append (take (4 * n) raw) (replicate (4 * n - length raw) 0),
  length-take (4 * n) raw,
  length-replicate {A = ℕ} (4 * n - length raw) 0,
)

-- A `memcpy` within the memory keeps its length.
pub length-overwrite :
    (k : ℕ) (v raw : List ℕ) → k + length v ≤ length raw → length (overwrite k v raw) ≡ length raw
length-overwrite k v raw h = omega (
  arith,
  length-append (take k raw) (v ++ drop (k + length v) raw),
  length-append v (drop (k + length v) raw),
  length-take k raw,
  length-drop (k + length v) raw,
)

-- Writing at the end of a prefix keeps the prefix.
overwrite-append :
    (k : ℕ) (v raw rest : List ℕ)
    → k ≡ length raw
    → overwrite k v (raw ++ rest) ≡ raw ++ (v ++ drop (length v) rest)
overwrite-append k v raw rest h =
    rw (take-append_eq k raw rest h, drop-add-append k (length v) raw rest h)

resize_grow :
    (n : ℕ) (raw : List ℕ)
    → length raw ≤ 4 * n
    → resize n raw ≡ raw ++ replicate (4 * n - length raw) 0
resize_grow n raw h = rw (take_of_le (4 * n) raw h)

-- The memory after `operator<<`: the old payload, the value, and the rest of the new elements.
pub payload-push :
    (m : Message) (v : List ℕ)
    → length m.payload ≡ 4 * size m
    → (push m v).payload ≡ m.payload ++ (v ++ replicate (3 * length v) 0)
unfolding push
payload-push m v h =
    rw
      (
        resize_grow (size m + length v) m.payload (omega arith),
        overwrite-append (4 * size m) v m.payload _ (omega arith),
        drop-replicate,
      )
      (ap (λ k. m.payload ++ (v ++ replicate k 0)) (omega arith))

-- A value of n bytes takes n elements, which is 4 n bytes of memory.
pub length-push :
    (m : Message) (v : List ℕ)
    → length m.payload ≡ 4 * size m
    → length (push m v).payload ≡ 4 * (size m + length v)
length-push m v h = omega (
  arith,
  ap length (payload-push m v h),
  length-append m.payload (v ++ replicate (3 * length v) 0),
  length-append v (replicate (3 * length v) 0),
  length-replicate {A = ℕ} (3 * length v) 0,
)

-- The payload grows by as many elements as the value has bytes.
pub size-push :
    (m : Message) (v : List ℕ) → length m.payload ≡ 4 * size m → size (push m v) ≡ size m + length v
size-push m v h = omega (arith, length-push m v h)

pub header-push :
    (m : Message) (v : List ℕ)
    → length m.payload ≡ 4 * size m
    → (push m v).header ≡ record { id = m.header.id; size = (size m + length v) % 2 ^ 32 }
unfolding push
header-push m v h = ap (λ k. record { id = m.header.id; size = k % 2 ^ 32 }) (size-push m v h)

-- `operator<<` keeps a message well-formed while its size fits the header's `uint32_t`.
pub push-IsValid :
    (m : Message) (v : List ℕ) → IsValid m → size m + length v < 2 ^ 32 → IsValid (push m v)
push-IsValid m v valid fits = record {
  whole = omega (arith, length-push m v valid.whole);
  stated =
      omega (arith, size-push m v valid.whole, ap MessageHeader.size (header-push m v valid.whole));
}
