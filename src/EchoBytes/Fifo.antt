-- ===== src/EchoBytes/Fifo.antt =====
-- tcp_echo_server_efficient_data_read_write.cpp: the circular buffer is a queue of bytes.
use networking_cpp_intro.Common.{
  ℕ, zero, suc, ◌+◌, ◌%◌, ◌^◌, ◌≤◌, ◌<◌, ◌≡◌, ◌≢◌, refl, sym, ap, subst, drop-append_eq, List, [],
  ◌∷◌, ◌++◌, some, length, drop, arith,
}
use networking_cpp_intro.EchoBytes.{
  CircularBuffer, stored, prepare, commit, consume, data_sequence, set_cell, put, get,
  session_capacity, contents, fill,
}
use networking_cpp_intro.EchoBytes.Places.{ring, ring_congr, ring_add, places-make_sequence}

get_append : (ps qs : List ℕ) (cells : ℕ → ℕ) → get (ps ++ qs) cells ≡ get ps cells ++ get qs cells
unfolding get
get_append [] qs cells = refl
get_append (p ∷ ps) qs cells = cc (get_append ps qs cells)

length-get : (t n : ℕ) (cells : ℕ → ℕ) → length (get (ring t n) cells) ≡ n
unfolding get
length-get t zero cells = refl
length-get t (suc n) cells = omega (arith, length-get (t + 1) n cells)

-- A place that the ring from `t` on does not reach keeps its byte.
put_elsewhere :
    (t n q : ℕ) (bytes : List ℕ) (cells : ℕ → ℕ)
    → ((i : ℕ) → i < n → (t + i) % session_capacity ≢ q)
    → put (ring t n) bytes cells q ≡ cells q
unfolding put
put_elsewhere t zero q bytes cells apart = refl
put_elsewhere t (suc n) q [] cells apart = refl
put_elsewhere t (suc n) q (x ∷ bytes) cells apart =
    let cells' = set_cell (t % session_capacity) x cells in
    let here : t % session_capacity ≢ q = λ e. apart 0 (omega arith) (omega (arith, e)) in
    let after =
      put_elsewhere (t + 1) n q bytes cells'
        (λ i less e. apart (i + 1) (omega arith) (omega (arith, e))) in
    ground (arith, after)

-- The bytes before the ring stay, and those put are read back.
get-put_before :
    (b m t n : ℕ) (bytes : List ℕ) (cells : ℕ → ℕ)
    → b + m ≤ t
    → t + n ≤ b + session_capacity
    → get (ring b m) (put (ring t n) bytes cells) ≡ get (ring b m) cells
unfolding get
get-put_before b zero t n bytes cells h k = refl
get-put_before b (suc m) t n bytes cells h k =
    let kept = put_elsewhere t n (b % session_capacity) bytes cells (λ i less. omega arith) in
    let after = get-put_before (b + 1) m t n bytes cells (omega arith) (omega arith) in
    cc (kept, after)

get-put_self :
    (t n : ℕ) (bytes : List ℕ) (cells : ℕ → ℕ)
    → length bytes ≤ n
    → n ≤ session_capacity
    → get (ring t (length bytes)) (put (ring t n) bytes cells) ≡ bytes
unfolding get put
get-put_self t n [] cells h k = refl
get-put_self t zero (x ∷ bytes) cells h k = absurd (omega arith)
get-put_self t (suc n) (x ∷ bytes) cells h k =
    let cells' = set_cell (t % session_capacity) x cells in
    let first =
      put_elsewhere (t + 1) n (t % session_capacity) bytes cells' (λ i less. omega arith) in
    let after = get-put_self (t + 1) n bytes cells' (omega arith) (omega arith) in
    grind (arith, first, after)

-- A buffer whose counters are `size_t` and which is not full.
pub record IsValid (b : CircularBuffer) : Type 0 where
  pub head_fits : b.head < 2 ^ 64
  pub tail_fits : b.tail < 2 ^ 64
  pub below : stored b < session_capacity

contents-ring :
    (b : CircularBuffer) → IsValid b → contents b ≡ get (ring b.head (stored b)) b.buffer
unfolding contents data_sequence stored
contents-ring b v =
    let n = stored b in
    let end_ : (b.head + n) % 2 ^ 64 ≡ b.tail = ground (arith, v.head_fits, v.tail_fits) in
    cc (places-make_sequence b.head n v.head_fits v.below, end_)

-- What `fill` gives, and the conditions for it.
fill-eq-some :
    (n : ℕ) (bytes : List ℕ) (b b' : CircularBuffer)
    → IsValid b
    → n < session_capacity
    → fill n bytes b ≡ some b'
    → (stored b + n ≤ session_capacity)
      × (b' ≡ commit (length bytes) (record b { buffer = put (ring b.tail n) bytes b.buffer }))
unfolding fill prepare
fill-eq-some n bytes b b' v short ok =
    let same = places-make_sequence b.tail n v.tail_fits short in
    (ground (arith, v.below), ground (arith, v.below, same))

stored-commit :
    (k : ℕ) (b : CircularBuffer) (cells : ℕ → ℕ)
    → IsValid b
    → stored b + k < session_capacity
    → (stored (commit k (record b { buffer = cells })) ≡ stored b + k)
      × IsValid (commit k (record b { buffer = cells }))
unfolding stored commit
stored-commit k b cells v room = (
  ground (arith, v.head_fits, v.tail_fits),
  record {
    head_fits = v.head_fits;
    tail_fits = ground arith;
    below = ground (arith, v.head_fits, v.tail_fits);
  },
)

tail_congr :
    (b : CircularBuffer)
    → IsValid b
    → (b.head + stored b) % session_capacity ≡ b.tail % session_capacity
unfolding stored
tail_congr b v = ground (arith, v.head_fits, v.tail_fits)

-- Bytes put behind those that are stored, and committed.
contents-commit :
    (n : ℕ) (bytes : List ℕ) (b : CircularBuffer)
    → IsValid b
    → length bytes ≤ n
    → stored b + n ≤ session_capacity
    → stored b + length bytes < session_capacity
    → contents (commit (length bytes) (record b { buffer = put (ring b.tail n) bytes b.buffer }))
      ≡ contents b ++ bytes
unfolding commit
contents-commit n bytes b v fits enough room =
    let k = length bytes in
    let t = b.head + stored b in
    let cells = put (ring b.tail n) bytes b.buffer in
    let grown = stored-commit k b cells v room in
    cc (
      contents-ring b v,
      contents-ring (commit k (record b { buffer = cells })) grown.1,
      grown.0,
      ring_add b.head (stored b) k,
      get_append (ring b.head (stored b)) (ring t k) cells,
      ring_congr t b.tail n (tail_congr b v),
      get-put_before b.head (stored b) t n bytes b.buffer (omega arith) (omega arith),
      get-put_self t n bytes b.buffer fits (omega arith),
    )

-- Bytes that are read come behind those that are stored.
pub contents-fill :
    (n : ℕ) (bytes : List ℕ) (b b' : CircularBuffer)
    → IsValid b
    → n < session_capacity
    → length bytes ≤ n
    → stored b + length bytes < session_capacity
    → fill n bytes b ≡ some b'
    → IsValid b' × (contents b' ≡ contents b ++ bytes)
contents-fill n bytes b b' v short fits room ok =
    let eq = fill-eq-some n bytes b b' v short ok in
    let cells = put (ring b.tail n) bytes b.buffer in
    let grown = stored-commit (length bytes) b cells v room in
    (subst IsValid (sym eq.1) grown.1, cc (eq.1, contents-commit n bytes b v fits eq.0 room))

pub stored-consume :
    (n : ℕ) (b : CircularBuffer)
    → IsValid b
    → n ≤ stored b
    → (stored (consume n b) + n ≡ stored b) × IsValid (consume n b)
unfolding stored consume
stored-consume n b v enough = (
  ground (arith, v.head_fits, v.tail_fits, v.below),
  record {
    head_fits = ground arith;
    tail_fits = v.tail_fits;
    below = ground (arith, v.head_fits, v.tail_fits, v.below);
  },
)

-- What is consumed is what came first.
pub contents-consume :
    (n : ℕ) (b : CircularBuffer)
    → IsValid b
    → n ≤ stored b
    → contents (consume n b) ≡ drop n (contents b)
unfolding consume
contents-consume n b v enough =
    let b' = consume n b in
    let left = stored-consume n b v enough in
    let front = get (ring b.head n) b.buffer in
    let all = ring_add b.head n (stored b') in
    let sum : n + stored b' ≡ stored b = omega (arith, left.0) in
    cc (
      contents-ring b v,
      contents-ring b' left.1,
      all,
      ap (ring b.head) (sum),
      get_append (ring b.head n) (ring (b.head + n) (stored b')) b.buffer,
      ring_congr (b.head + n) b'.head (stored b') (omega arith),
      drop-append_eq n front (contents b') (sym (length-get b.head n b.buffer)),
    )

pub length-contents : (b : CircularBuffer) → IsValid b → length (contents b) ≡ stored b
length-contents b v = cc (contents-ring b v, length-get b.head (stored b) b.buffer)
