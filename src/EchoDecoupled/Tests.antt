-- ===== src/EchoDecoupled/Tests.antt =====
-- A run of the session.
use networking_cpp_intro.Common.{◌≡◌, refl, [], ◌∷◌, arith}
use networking_cpp_intro.EchoDecoupled.{started}
use networking_cpp_intro.EchoDecoupled.Repeats.{exchanges, every_echo_repeats}

every_echo_repeats_example :
    (exchanges ((1 ∷ 2 ∷ []) ∷ (3 ∷ []) ∷ []) started).written ≡ 1 ∷ 2 ∷ 1 ∷ 2 ∷ 3 ∷ []
every_echo_repeats_example =
    every_echo_repeats ((1 ∷ 2 ∷ []) ∷ (3 ∷ []) ∷ []) started (ground arith) refl refl
