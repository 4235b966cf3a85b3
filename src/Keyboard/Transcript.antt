-- ===== src/Keyboard/Transcript.antt =====
-- user_input.cpp: what is printed depends on the keys alone, not on when the thread and `main` run.
use networking_cpp_intro.Common.{
  ℕ, ◌==◌, ◌≡◌, refl, sym, subst, if◌then◌else◌, true, List, [], ◌∷◌, ◌++◌, append_assoc, Option,
  none, some, arith,
}
use networking_cpp_intro.Keyboard.{
  Line, programm_started, your_input, no_action, quit_accepted, server_accept, server_deny,
  server_ping, message_all, server_message, contains, possable_inputs, Program, started,
  switch_line, get_keyboard_input, on_input, main_round, Step, key_read, round, Reach, here, next,
}

-- The keys with an action and the line of each.
abbrev pub actions : List (ℕ × Line)
actions =
    (97, server_accept)
    ∷ (100, server_deny)
    ∷ (112, server_ping)
    ∷ (109, message_all)
    ∷ (115, server_message)
    ∷ []

abbrev pub lookup : ℕ → List (ℕ × Line) → Option Line
lookup c [] = none
lookup c ((k, line) ∷ more) = if c == k then some line else lookup c more

-- What the keys print: two lines for a key with an action, one for any other, up to 'q' or ctrl+c.
unfoldable pub transcript : List ℕ → List Line
transcript [] = []
transcript (c ∷ keys) =
    let rest = transcript keys in
    if c == 3
    then []
    else if c == 113
    then your_input ∷ quit_accepted ∷ []
    else elim (lookup c actions) [ none ↦ no_action ∷ rest | some line ↦ your_input ∷ line ∷ rest ]

-- What a key that the thread has passed on is due.
abbrev pub answer : ℕ → List Line → List Line
answer c rest =
    if c == 3
    then []
    else if c == 113
    then quit_accepted ∷ []
    else elim (lookup c actions) [ none ↦ rest | some line ↦ line ∷ rest ]

-- What is still to be printed.
abbrev pub due : Program → List Line
due p =
    if p.running
    then elim p.promise [ none ↦ transcript p.keys | some c ↦ answer c (transcript p.keys) ]
    else []

-- A promise holds one of the possible keys only.
abbrev pub IsPassed : Option ℕ → Type 0
IsPassed none = Unit
IsPassed (some c) = contains c possable_inputs ≡ true

pub record IsFaithful (keys : List ℕ) (p : Program) : Type 0 where
  pub passed : IsPassed p.promise
  pub account : p.shown ++ due p ≡ programm_started ∷ transcript keys

due_keys : (p : Program) → p.running ≡ true → p.promise ≡ none → due p ≡ transcript p.keys
due_keys p going empty = ground arith

due_answer :
    (c : ℕ) (p : Program)
    → p.running ≡ true
    → p.promise ≡ some c
    → due p ≡ answer c (transcript p.keys)
due_answer c p going set_ = grind (arith, going, set_)

get_keyboard_input-due :
    (c : ℕ) (p : Program)
    → p.running ≡ true
    → p.promise ≡ none
    → IsPassed (get_keyboard_input c p).promise
      × ((get_keyboard_input c p).shown ++ due (get_keyboard_input c p)
          ≡ p.shown ++ transcript (c ∷ p.keys))
unfolding get_keyboard_input contains transcript
get_keyboard_input-due c p going empty =
    let rest = transcript p.keys in
    ground (
      arith,
      append_assoc p.shown (your_input ∷ []) (answer c rest),
      append_assoc p.shown (no_action ∷ []) rest,
    )

on_input-due :
    (c : ℕ) (p : Program)
    → p.running ≡ true
    → contains c possable_inputs ≡ true
    → (on_input c p).shown ++ due (on_input c p) ≡ p.shown ++ answer c (transcript p.keys)
unfolding on_input contains
on_input-due c p going possible =
    let rest = transcript p.keys in
    ground (
      arith,
      append_assoc p.shown (quit_accepted ∷ []) [],
      append_assoc p.shown (switch_line c ∷ []) rest,
    )

on_input-passed : (c : ℕ) (p : Program) → (on_input c p).promise ≡ none
unfolding on_input
on_input-passed c p = ground arith

step-IsFaithful : {keys : List ℕ} {p q : Program} → Step p q → IsFaithful keys p → IsFaithful keys q
unfolding main_round
step-IsFaithful {keys} {p} (key_read c rest going empty typed) f =
    let read = get_keyboard_input-due c (record p { keys = rest }) going empty in
    record { passed = read.0; account = cc (read.1, f.account, due_keys p going empty, typed) }
step-IsFaithful {keys} {p} (round going) f = go p.promise refl
  where
    go :
        (o : Option ℕ)
        → p.promise ≡ o
        → IsFaithful keys (elim o [ none ↦ p | some c ↦ on_input c p ])
    go none e = f
    go (some c) e =
        let possible : contains c possable_inputs ≡ true = subst IsPassed e f.passed in
        record {
          passed = subst IsPassed (sym (on_input-passed c p)) tt;
          account = cc (on_input-due c p going possible, due_answer c p going e, f.account);
        }

-- In whatever order the thread and the loop of `main` run, what has been printed is a beginning of the line
-- that the program has started and then of what the keys alone determine, and what is still due is the rest of it; nothing is due once `main` has
-- returned.
pub program-IsFaithful : {keys : List ℕ} {p : Program} → Reach (started keys) p → IsFaithful keys p
program-IsFaithful here = record { passed = tt; account = refl }
program-IsFaithful (next reach step) = step-IsFaithful step (program-IsFaithful reach)
