-- ===== src/Sender/Tests.antt =====
-- Runs of the sender.
use networking_cpp_intro.Common.{Bool, ℕ, ◌≡◌, refl, false, List, [], ◌∷◌, arith}
use networking_cpp_intro.Sender.{send, delivered}
use networking_cpp_intro.Sender.Delivery.{send_delivers}

abbrev rooms : List (Bool × ℕ)
rooms = (false, 2) ∷ (false, 1) ∷ (false, 9) ∷ []

send_delivers_example :
    send rooms (7 ∷ 8 ∷ 9 ∷ []) ≡ record { taken = 7 ∷ 8 ∷ 9 ∷ []; stands = delivered }
send_delivers_example =
    send_delivers rooms (7 ∷ 8 ∷ 9 ∷ [])
      ((refl, omega arith), ((refl, omega arith), ((refl, omega arith), tt))) (omega arith)
      (omega arith)
