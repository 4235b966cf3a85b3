-- ===== src/Message.antt =====
-- include/custom_net_lib/net_message.hpp: the message header, the message, and the two operators
-- that serialise a value into its payload and take it out again.
-- The payload is a `std::vector<uint32_t>`; the model keeps its memory, four bytes to an element,
-- because the operators copy bytes into it. A value of a `PayloadType` is the list of its
-- `sizeof(PayloadType)` bytes.
pub mod Laws
pub mod RoundTrip
pub mod Wire
mod Tests
use networking_cpp_intro.Common.{
  ℕ, ◌+◌, ◌-◌, ◌*◌, ◌/◌, ◌%◌, ◌^◌, if◌then◌else◌, leb, List, [], ◌++◌, Option, none, some, length,
  take, drop, replicate,
}

-- `message_header<T>`: `id` is the value of the enumerator, whose underlying type is `uint32_t`.
pub record MessageHeader : Type 0 where
  pub id : ℕ
  pub size : ℕ

pub record Message : Type 0 where
  pub header : MessageHeader
  pub payload : List ℕ

-- `std::vector<uint32_t>::size` counts elements.
abbrev pub elements : List ℕ → ℕ
elements raw = length raw / 4

-- `message::size`
abbrev pub size : Message → ℕ
size m = elements m.payload

-- `std::vector<uint32_t>::resize`: new elements are zero.
abbrev pub resize : ℕ → List ℕ → List ℕ
resize n raw = take (4 * n) raw ++ replicate (4 * n - length raw) 0

-- `memcpy` of a value to a byte offset.
abbrev pub overwrite : ℕ → List ℕ → List ℕ → List ℕ
overwrite offset value raw = take offset raw ++ (value ++ drop (offset + length value) raw)

abbrev pub empty_message : ℕ → Message
empty_message id = record { header = record { id = id; size = 0 }; payload = [] }

-- `operator<<`: the offset `payload.data() + current_size` counts elements, and `header.size` is
-- a `uint32_t`.
unfoldable pub push : Message → List ℕ → Message
push m value =
    let current_size = size m in
    let grown = resize (current_size + length value) m.payload in
    let payload = overwrite (4 * current_size) value grown in
    record {
      header = record { id = m.header.id; size = elements payload % 2 ^ 32 };
      payload = payload;
    }

-- `operator>>` for a type of `n` bytes. `none` is a `memcpy` that reads outside the payload; the
-- subtraction is of `size_t`.
unfoldable pub pull : Message → ℕ → Option (List ℕ × Message)
pull m n =
    let start_idx_last_element = (2 ^ 64 + size m - n) % 2 ^ 64 in
    let payload = resize start_idx_last_element m.payload in
    if leb (4 * start_idx_last_element + n) (length m.payload)
    then some (
      take n (drop (4 * start_idx_last_element) m.payload),
      record {
        header = record { id = m.header.id; size = elements payload % 2 ^ 32 };
        payload = payload;
      },
    )
    else none
