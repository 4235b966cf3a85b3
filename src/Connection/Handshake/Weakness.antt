-- ===== src/Connection/Handshake/Weakness.antt =====
-- connection_net_interface.hpp: `encrypt_handshake_data` masks both halves of its swap with the same
-- constant, so half of the challenge does not count.
use networking_cpp_intro.Common.{ℕ, ◌≡◌, bit_and, and-xor}
use networking_cpp_intro.Connection.{encrypt_handshake_data}

-- The answer depends only on the 28 bits of the challenge that the mask lets through: two challenges
-- that agree there have the same answer.
pub encrypt_of_masked :
    (x y : ℕ)
    → bit_and x 0xF0F0F0F0F0F0F0 ≡ bit_and y 0xF0F0F0F0F0F0F0
    → encrypt_handshake_data x ≡ encrypt_handshake_data y
unfolding encrypt_handshake_data
encrypt_of_masked x y h = rw (and-xor x, and-xor y, h)
