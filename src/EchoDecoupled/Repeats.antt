-- ===== src/EchoDecoupled/Repeats.antt =====
-- tcp_echo_server_read_write_decoupled.cpp: what comes back to a client that waits for its echo.
use networking_cpp_intro.Common.{
  ℕ, ◌≡◌, false, List, [], ◌∷◌, ◌++◌, append-nil, append_assoc, arith, All,
}
use networking_cpp_intro.TsQueue.{is_empty}
use networking_cpp_intro.EchoDecoupled.{Session, on_read, on_write}

-- The client sends some bytes and waits until the write that follows is done, again and again.
abbrev pub exchanges : List (List ℕ) → Session → Session
exchanges [] s = s
exchanges (bytes ∷ more) s = exchanges more (on_write false (on_read false bytes s))

-- What comes back: with each exchange all bytes from the first one on.
abbrev pub repeated : List ℕ → List (List ℕ) → List ℕ
repeated before [] = []
repeated before (bytes ∷ more) = (before ++ bytes) ++ repeated (before ++ bytes) more

-- If each of a client's sends is a byte or more, and each is echoed before the next, then an idle
-- session writes for each of them not only its bytes, but again all bytes that it has ever read.
pub every_echo_repeats :
    (sends : List (List ℕ)) (s : Session)
    → All (λ bytes. is_empty bytes ≡ false) sends
    → s.writing ≡ false
    → s.outstreambuffer ≡ []
    → (exchanges sends s).written ≡ s.written ++ repeated s.instreambuffer sends
unfolding on_read on_write
every_echo_repeats [] s full idle clean = ground (arith, append-nil s.written)
every_echo_repeats (bytes ∷ more) s full idle clean =
    let s' = on_write false (on_read false bytes s) in
    ground (
      arith,
      every_echo_repeats more s' full.1 (ground (arith, full.0)) (ground (arith, full.0)),
      full.0,
      append_assoc s.written (s.instreambuffer ++ bytes)
          (repeated (s.instreambuffer ++ bytes) more),
    )
