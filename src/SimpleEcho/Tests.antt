-- ===== src/SimpleEcho/Tests.antt =====
-- Runs of the simple echo session.
use networking_cpp_intro.Common.{refl, false, [], ◌∷◌, arith}
use networking_cpp_intro.SimpleEcho.{started, on_read, read_completes, write_completes}
use networking_cpp_intro.SimpleEcho.PingPong.{
  here, next, read_done, write_done, IsPingPong, session-IsPingPong,
}

-- Two bytes are read and written back.
session-IsPingPong_example : IsPingPong (record {
  session = write_completes false 2 (read_completes false (7 ∷ 8 ∷ []) started);
  received = 7 ∷ 8 ∷ [];
  written = 7 ∷ 8 ∷ [];
  failed = false;
})
unfolding read_completes on_read
session-IsPingPong_example = session-IsPingPong (
    next (next here (read_done false (7 ∷ 8 ∷ []) (omega arith) (λ h. omega arith)))
      (write_done false 2 (omega arith) (λ h. refl)))
