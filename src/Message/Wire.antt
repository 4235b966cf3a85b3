-- ===== src/Message/Wire.antt =====
-- What a message becomes on the socket: the buffers that `ConnectionInterface` hands to
-- `async_write` and `async_read` (include/custom_net_lib/connection_net_interface.hpp), byte by
-- byte. Integers are little-endian, and the header has no padding: two `uint32_t`.
use networking_cpp_intro.Common.{
  ℕ, ltb, if◌then◌else◌, true, false, ◌≡◌, refl, List, [], ◌∷◌, ◌++◌, append-nil, append_assoc,
  take, drop, le_bytes, of_le_bytes, length, ◌<◌, ◌^◌, of_le_bytes-le_bytes, length-le_bytes,
  length-append, take-append_eq, drop-append_eq, sym, arith,
}
use networking_cpp_intro.Message.{Message, MessageHeader, size}

-- `sizeof(message_header<T>)`
abbrev pub header_length : ℕ
header_length = 8

-- `boost::asio::buffer(&header, sizeof(message_header<T>))`
unfoldable pub header_bytes : MessageHeader → List ℕ
header_bytes h = le_bytes 4 h.id ++ le_bytes 4 h.size

-- The header that eight bytes of memory stand for.
unfoldable pub header_of_bytes : List ℕ → MessageHeader
header_of_bytes bytes = record {
  id = of_le_bytes (take 4 bytes);
  size = of_le_bytes (drop 4 bytes);
}

-- `boost::asio::buffer(payload.data(), payload.size())`: the second argument counts bytes.
unfoldable pub payload_bytes : Message → List ℕ
payload_bytes m = take (size m) m.payload

-- All the bytes of one message: its two header fields, and of its payload as many bytes as it has
-- elements.
unfoldable pub frame : Message → List ℕ
frame m =
    (le_bytes 4 m.header.id ++ le_bytes 4 m.header.size)
    ++ (if ltb 0 (size m) then take (size m) m.payload else [])

pub frames : List Message → List ℕ
frames [] = []
frames (m ∷ ms) = frame m ++ frames ms

pub frames-append : (xs ys : List Message) → frames (xs ++ ys) ≡ frames xs ++ frames ys
unfolding frames
frames-append [] ys = refl
frames-append (m ∷ xs) ys = rw (frames-append xs ys, append_assoc (frame m) (frames xs) (frames ys))

pub frames-snoc : (xs : List Message) (m : Message) → frames (xs ++ m ∷ []) ≡ frames xs ++ frame m
unfolding frames
frames-snoc xs m = rw (frames-append xs (m ∷ []), append-nil)

pub frames-cons : (m : Message) (ms : List Message) → frames (m ∷ ms) ≡ frame m ++ frames ms
unfolding frames
frames-cons m ms = refl

pub frames-nil : frames [] ≡ []
unfolding frames
frames-nil = refl

-- The two buffers of a message with a payload, and the one of a message without.
pub frame_of_payload :
    (m : Message) → ltb 0 (size m) ≡ true → frame m ≡ header_bytes m.header ++ payload_bytes m
unfolding frame header_bytes payload_bytes
frame_of_payload m h = rw h

pub frame_of_empty : (m : Message) → ltb 0 (size m) ≡ false → frame m ≡ header_bytes m.header
unfolding frame header_bytes
frame_of_empty m h = rw h (append-nil (header_bytes m.header))

pub length-header_bytes : (h : MessageHeader) → length (header_bytes h) ≡ header_length
unfolding header_bytes
length-header_bytes h = omega (
  arith,
  length-append (le_bytes 4 h.id) (le_bytes 4 h.size),
  length-le_bytes 4 h.id,
  length-le_bytes 4 h.size,
)

-- The header is written first.
pub frame_of_header :
    (m : Message)
    → frame m ≡ header_bytes m.header ++ (if ltb 0 (size m) then payload_bytes m else [])
unfolding frame header_bytes payload_bytes
frame_of_header m = refl

-- A header whose fields are `uint32_t` survives the transport.
pub header_of_bytes-header_bytes :
    (h : MessageHeader) → h.id < 2 ^ 32 → h.size < 2 ^ 32 → header_of_bytes (header_bytes h) ≡ h
unfolding header_of_bytes header_bytes
header_of_bytes-header_bytes h i s =
    rw
      (
        take-append_eq 4 (le_bytes 4 h.id) (le_bytes 4 h.size) (sym (length-le_bytes 4 h.id)),
        drop-append_eq 4 (le_bytes 4 h.id) (le_bytes 4 h.size) (sym (length-le_bytes 4 h.id)),
        of_le_bytes-le_bytes 4 h.id i,
        of_le_bytes-le_bytes 4 h.size s,
      )
      refl
