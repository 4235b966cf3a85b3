-- ===== src/Connection/Reader/Payloads.antt =====
-- net_message.hpp and connection_net_interface.hpp together: which payloads survive the transport.
-- The payload is sent as `size()` bytes, a quarter of its memory.
use networking_cpp_intro.Common.{
  ℕ, ◌+◌, ◌-◌, ◌*◌, ◌%◌, ◌^◌, ◌≤◌, ◌<◌, ◌≡◌, refl, sym, ap, ◌∙◌, ltb, lt→ltb, if◌then◌else◌, List,
  ◌++◌, some, length, take, drop, replicate, length-append, length-replicate, take-append_le,
  take-append_eq, arith,
}
use networking_cpp_intro.Message.{Message, empty_message, size, resize, overwrite, push, pull}
use networking_cpp_intro.Message.Laws.{
  IsValid, length-resize, length-overwrite, payload-push, length-push, size-push, header-push,
}
use networking_cpp_intro.Message.RoundTrip.{pull_at, shrink}
use networking_cpp_intro.Message.Wire.{payload_bytes}
use networking_cpp_intro.Connection.Reader.Receipt.{arrive}

-- The bytes sent for a message with one value are the value.
payload_bytes_single : (id : ℕ) (v : List ℕ) → payload_bytes (push (empty_message id) v) ≡ v
unfolding payload_bytes
payload_bytes_single id v =
    rw (size-push (empty_message id) v refl, payload-push (empty_message id) v refl)
      (take-append_eq (0 + length v) v _ (omega arith))

-- The message that holds one value in the first quarter of its memory.
abbrev received : ℕ → List ℕ → List ℕ → Message
received id v memory = record {
  header = record { id = id; size = length v };
  payload = overwrite 0 v (resize (length v) memory);
}

received-IsValid :
    (id : ℕ) (v memory : List ℕ)
    → IsValid (received id v memory) × (size (received id v memory) ≡ length v)
received-IsValid id v memory =
    let l : length (overwrite 0 v (resize (length v) memory)) ≡ 4 * length v =
      length-overwrite 0 v (resize (length v) memory)
        (omega (arith, length-resize (length v) memory))
      ∙ length-resize (length v) memory in
    (record { whole = omega (arith, l); stated = omega (arith, l) }, omega (arith, l))

arrive_single :
    (tmp : Message) (id : ℕ) (v : List ℕ)
    → 0 < length v
    → length v < 2 ^ 32
    → arrive tmp (push (empty_message id) v) ≡ received id v tmp.payload
arrive_single tmp id v some_byte fits =
    rw
      (
        payload_bytes_single id v,
        header-push (empty_message id) v refl,
        small,
        lt→ltb 0 (length v) some_byte,
      )
      refl
  where
    small : (0 + length v) % 2 ^ 32 ≡ length v
    small = omega arith

-- A message with one value, not empty and shorter than 2^32 bytes, arrives with the value in its
-- last place, whatever the receiver's buffer held.
pub single_value_arrives :
    (tmp : Message) (id : ℕ) (v : List ℕ)
    → 0 < length v
    → length v < 2 ^ 32
    → (m' : Message) × (pull (arrive tmp (push (empty_message id) v)) (length v) ≡ some (v, m'))
single_value_arrives tmp id v some_byte fits =
    let (valid, n) = received-IsValid id v tmp.payload in
    let m = received id v tmp.payload in
    (
      shrink (size m - length v) m,
      rw (arrive_single tmp id v some_byte fits) (
          pull_at m (length v) valid (omega (arith, n)) (omega (arith, n))
          ∙ ap (λ x. some (x, shrink (size m - length v) m)) (first_place m n)),
    )
  where
    first_place :
        (m : Message)
        → size m ≡ length v
        → take
            (length v)
            (drop (4 * (size m - length v)) (overwrite 0 v (resize (length v) tmp.payload)))
          ≡ v
    first_place m n =
        let z : 4 * (size m - length v) ≡ 0 = omega (arith, n) in
        rw z (take-append_eq (length v) v _ refl)

payload_bytes-received : (id : ℕ) (v memory : List ℕ) → payload_bytes (received id v memory) ≡ v
unfolding payload_bytes
payload_bytes-received id v memory =
    rw (received-IsValid id v memory).1 (take-append_eq (length v) v _ refl)

arrive-received :
    (tmp : Message) (id : ℕ) (v memory : List ℕ)
    → 0 < length v
    → arrive tmp (received id v memory) ≡ received id v tmp.payload
arrive-received tmp id v memory some_byte =
    ground (arith, payload_bytes-received id v memory, lt→ltb 0 (length v) some_byte)

-- A message with one value that is sent on as it arrived arrives as if it had come directly.
pub relayed_arrives :
    (tmp tmp' : Message) (id : ℕ) (v : List ℕ)
    → 0 < length v
    → length v < 2 ^ 32
    → arrive tmp' (arrive tmp (push (empty_message id) v)) ≡ arrive tmp' (push (empty_message id) v)
relayed_arrives tmp tmp' id v some_byte fits =
    ap (arrive tmp') (arrive_single tmp id v some_byte fits)
    ∙ arrive-received tmp' id v tmp.payload some_byte
    ∙ sym (arrive_single tmp' id v some_byte fits)

one_value_whole :
    (id : ℕ) (v : List ℕ)
    → length (push (empty_message id) v).payload ≡ 4 * size (push (empty_message id) v)
one_value_whole id v =
    omega (arith, length-push (empty_message id) v refl, size-push (empty_message id) v refl)

-- The bytes sent for a message with two values, of which the second is short.
payload_bytes_first :
    (id : ℕ) (v w : List ℕ)
    → length w ≤ 3 * length v
    → payload_bytes (push (push (empty_message id) v) w)
      ≡ take (length v + length w) (v ++ replicate (3 * length v) 0)
unfolding payload_bytes
payload_bytes_first id v w short =
    rw
      (
        size-push (push (empty_message id) v) w (one_value_whole id v),
        size-push (empty_message id) v refl,
        payload-push (push (empty_message id) v) w (one_value_whole id v),
        payload-push (empty_message id) v refl,
        from_zero,
      )
      (take-append_le (length v + length w) (v ++ replicate (3 * length v) 0) _ within)
  where
    from_zero : 0 + length v ≡ length v
    from_zero = omega arith

    within : length v + length w ≤ length (v ++ replicate (3 * length v) 0)
    within = omega (
      arith,
      length-append v (replicate (3 * length v) 0),
      length-replicate {A = ℕ} (3 * length v) 0,
    )

same_arrival :
    (tmp m m' : Message)
    → m.header ≡ m'.header
    → payload_bytes m ≡ payload_bytes m'
    → arrive tmp m ≡ arrive tmp m'
same_arrival tmp m m' h p = λ i. record {
  header = h i;
  payload =
      if ltb 0 (h i).size then overwrite 0 (p i) (resize (h i).size tmp.payload) else tmp.payload;
}

two_values_header :
    (id : ℕ) (v w w' : List ℕ)
    → length w ≡ length w'
    → (push (push (empty_message id) v) w).header ≡ (push (push (empty_message id) v) w').header
two_values_header id v w w' same =
    rw
      (
        header-push (push (empty_message id) v) w (one_value_whole id v),
        header-push (push (empty_message id) v) w' (one_value_whole id v),
        same,
      )
      refl

-- With two values, of which the second is at most three times as long as the first, what arrives
-- does not depend on the second value: it is lost on the way.
pub second_value_lost :
    (tmp : Message) (id : ℕ) (v w w' : List ℕ)
    → length w ≡ length w'
    → length w ≤ 3 * length v
    → arrive tmp (push (push (empty_message id) v) w)
      ≡ arrive tmp (push (push (empty_message id) v) w')
second_value_lost tmp id v w w' same short =
    same_arrival tmp _ _ (two_values_header id v w w' same) (
      payload_bytes_first id v w short
      ∙ ap (λ n. take (length v + n) (v ++ replicate (3 * length v) 0)) same
      ∙ sym (payload_bytes_first id v w' (omega arith)))
