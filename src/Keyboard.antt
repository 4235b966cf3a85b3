-- ===== src/Keyboard.antt =====
-- other_ressources/user_input.cpp: a thread that listens to the keyboard and the loop of `main` that asks
-- it for keys, interleaved in any order. Keys are the codes of their characters. The time
-- that passes between two rounds and the mode of the terminal are left out.
pub mod Transcript
mod Tests
use networking_cpp_intro.Common.{
  ◌≡◌, ℕ, ◌==◌, if◌then◌else◌, Bool, true, false, ◌||◌, List, [], ◌∷◌, ◌++◌, Option, none, some,
}

-- The lines that the program prints, the text of each left out.
pub data Line : Type 0 where
  programm_started your_input no_action quit_accepted : Line
  server_accept server_deny server_ping message_all server_message : Line
  not_a_valid_input : ℕ → Line

-- 'a', 'd', 'p', 'm', 's', 'q' and ctrl+c
abbrev pub possable_inputs : List ℕ
possable_inputs = 97 ∷ 100 ∷ 112 ∷ 109 ∷ 115 ∷ 113 ∷ 3 ∷ []

unfoldable pub contains : ℕ → List ℕ → Bool
contains c [] = false
contains c (x ∷ xs) = (c == x) || contains c xs

-- `promise` is the value that the thread has set, and `running` is false once `main` has returned.
pub record Program : Type 0 where
  pub keys : List ℕ
  pub promise : Option ℕ
  pub running : Bool
  pub shown : List Line

abbrev pub started : List ℕ → Program
started keys = record { keys = keys; promise = none; running = true; shown = programm_started ∷ [] }

abbrev pub show : List Line → Program → Program
show lines p = record p { shown = p.shown ++ lines }

-- A round of the loop of `get_keyboard_input`, on the key that `getchar` returns.
unfoldable pub get_keyboard_input : ℕ → Program → Program
get_keyboard_input input p =
    if contains input possable_inputs
    then (if input == 3
        then record p { promise = some input }
        else record (show (your_input ∷ []) p) { promise = some input })
    else show (no_action ∷ []) p

-- The `switch`, on a key other than 'q' and ctrl+c.
abbrev pub switch_line : ℕ → Line
switch_line c =
    if c == 97
    then server_accept
    else if c == 100
    then server_deny
    else if c == 112
    then server_ping
    else if c == 109
    then message_all
    else if c == 115
    then server_message
    else not_a_valid_input c

-- The loop of `main` with a key: it returns, or starts a new thread with a new promise.
unfoldable pub on_input : ℕ → Program → Program
on_input input_character p =
    if input_character == 113
    then record (show (quit_accepted ∷ []) p) { running = false; promise = none }
    else if input_character == 3
    then record p { running = false; promise = none }
    else record (show (switch_line input_character ∷ []) p) { promise = none }

-- A round of the loop of `main`.
unfoldable pub main_round : Program → Program
main_round p = elim p.promise [ none ↦ p | some c ↦ on_input c p ]

-- The thread reads a key while its promise is not set, and `main` goes round its loop.
pub data Step (p : Program) : Program → Type 0 where
  key_read :
      (input : ℕ) (rest : List ℕ)
      → p.running ≡ true
      → p.promise ≡ none
      → p.keys ≡ input ∷ rest
      → Step p (get_keyboard_input input (record p { keys = rest }))
  round : p.running ≡ true → Step p (main_round p)

pub data Reach (p : Program) : Program → Type 0 where
  here : Reach p p
  next : {q r : Program} → Reach p q → Step q r → Reach p r
