-- ===== src/Keyboard/Tests.antt =====
-- Runs of the program that reads the keyboard.
use networking_cpp_intro.Common.{ℕ, ◌≡◌, refl, List, [], ◌∷◌, none, true}
use networking_cpp_intro.Keyboard.{
  here, next, key_read, round, get_keyboard_input, on_input, main_round, contains, Program,
  programm_started, your_input, no_action, quit_accepted, server_ping,
}
use networking_cpp_intro.Keyboard.Transcript.{transcript, IsFaithful, program-IsFaithful}

-- 'x', 'p' and 'q'
abbrev typed : List ℕ
typed = 120 ∷ 112 ∷ 113 ∷ []

transcript-typed :
    transcript typed ≡ no_action ∷ your_input ∷ server_ping ∷ your_input ∷ quit_accepted ∷ []
unfolding transcript
transcript-typed = refl

abbrev asked : Program
asked = record {
  keys = 113 ∷ [];
  promise = none;
  running = true;
  shown = programm_started ∷ no_action ∷ your_input ∷ server_ping ∷ [];
}

program-IsFaithful_example : IsFaithful typed asked
unfolding get_keyboard_input on_input main_round contains
program-IsFaithful_example = program-IsFaithful (
    next
      (next (next (next here (round refl)) (key_read 120 (112 ∷ 113 ∷ []) refl refl refl))
        (key_read 112 (113 ∷ []) refl refl refl))
      (round refl))
