-- ===== src/Connection/Handshake/Exchange.antt =====
-- connection_net_interface.hpp: an accepted server's end and any client's end that runs this code.
use networking_cpp_intro.Common.{
  ℕ, ◌*◌, ◌/◌, ◌%◌, ◌^◌, ◌<◌, ◌≡◌, refl, bit_and, bit_or, bit_xor, ==_refl, true, false, List, [],
  le_bytes, of_le_bytes-le_bytes, xor-lt, or-lt, and-lt, arith,
}
use networking_cpp_intro.Connection.{
  Connection, server, start, reading_header, encrypt_handshake_data, make_connection,
  connect_to_client, on_validation_request, on_check_validation,
}

-- The answer is a `uint64_t`.
pub encrypt-lt : (x : ℕ) → x < 2 ^ 64 → encrypt_handshake_data x < 2 ^ 64
unfolding encrypt_handshake_data
encrypt-lt x h = xor-lt 64 _ 0xC0DEFACE12345678 swapped (omega arith)
  where
    out : ℕ
    out = bit_and (bit_xor x 0xDEADBEEDC0DECAFE) 0xF0F0F0F0F0F0F0

    out-lt : out < 2 ^ 64
    out-lt = and-lt 64 _ _ (xor-lt 64 x 0xDEADBEEDC0DECAFE h (omega arith))

    swapped : bit_or (out / 2 ^ 4) (out * 2 ^ 4 % 2 ^ 64) < 2 ^ 64
    swapped = or-lt 64 _ _ (omega (arith, out-lt)) (omega arith)

-- `boost::asio::buffer(&handshake_out_, sizeof(uint64_t))`
unfoldable pub validation_bytes : Connection → List ℕ
validation_bytes c = le_bytes 8 c.handshake_out

-- The challenge reaches the client, its answer reaches the server: the server is told of a validated
-- client and listens for messages, and is otherwise unchanged but for the answer that it keeps.
pub handshake_succeeds :
    (self u_id now memory : ℕ) (c : Connection)
    → let s = connect_to_client u_id (make_connection server self true [] now memory) in
      let c' = on_validation_request false (validation_bytes s) c in
      on_check_validation false (validation_bytes c') s
      ≡ start reading_header
          (record s { handshake_in = encrypt_handshake_data (now % 2 ^ 64); validated = 1 })
unfolding connect_to_client make_connection on_validation_request on_check_validation
    validation_bytes
handshake_succeeds self u_id now memory c =
    rw
      (
        of_le_bytes-le_bytes 8 (now % 2 ^ 64) (omega arith),
        of_le_bytes-le_bytes 8 (encrypt_handshake_data (now % 2 ^ 64))
            (encrypt-lt (now % 2 ^ 64) (omega arith)),
        ==_refl (encrypt_handshake_data (now % 2 ^ 64)),
      )
      refl
