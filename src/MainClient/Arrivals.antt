-- ===== src/MainClient/Arrivals.antt =====
-- main_client_async.cpp: what is printed is what arrives.
use networking_cpp_intro.Common.{
  ℕ, ◌+◌, ◌≡◌, refl, sym, ap, ◌∙◌, if◌then◌else◌, Bool, true, false, List, [], ◌∷◌, ◌++◌, map,
  append-nil, length, take, drop, take-append_eq,
}
use networking_cpp_intro.MainClient.{
  Line, connected, no_connection, finished_reading, read_bytes, cell, Phase, asking, sleeping,
  Program, new_program, on_read, on_connect, Step, connects, writes, read_done, wakes,
}

-- The bytes among what is printed.
pub shown : List Line → List ℕ
shown [] = []
shown (cell b ∷ lines) = b ∷ shown lines
shown (_ ∷ lines) = shown lines

shown-append : (ls ms : List Line) → shown (ls ++ ms) ≡ shown ls ++ shown ms
unfolding shown
shown-append [] ms = refl
shown-append (cell b ∷ ls) ms = ap (◌∷◌ b) (shown-append ls ms)
shown-append (connected ∷ ls) ms = shown-append ls ms
shown-append (no_connection ∷ ls) ms = shown-append ls ms
shown-append (finished_reading ∷ ls) ms = shown-append ls ms
shown-append (read_bytes n ∷ ls) ms = shown-append ls ms

shown-map : (bs : List ℕ) → shown (map cell bs) ≡ bs
unfolding shown
shown-map [] = refl
shown-map (b ∷ bs) = ap (◌∷◌ b) (shown-map bs)

-- What the reads that did not fail have put into the storage.
pub arrives : {p q : Program} → Step p q → List ℕ
arrives (read_done failed bytes r n) = if failed then [] else bytes
arrives _ = []

pub data Reach (p : Program) : List ℕ → Program → Type 0 where
  here : Reach p [] p
  next :
      {q r : Program} {came : List ℕ}
      → Reach p came q
      → (st : Step q r) → Reach p (came ++ arrives st) r

-- While `main` has a socket that is connected and has not stopped the thread.
abbrev pub is_live : Phase → Bool
is_live asking = true
is_live sleeping = true
is_live _ = false

pub record IsShowing (came : List ℕ) (p : Program) : Type 0 where
  pub exact : shown p.printed ≡ came
  pub idle : is_live p.phase ≡ false → p.reading ≡ false

on_read-shown :
    (bytes : List ℕ) (p : Program)
    → shown (on_read false bytes p).printed ≡ shown p.printed ++ bytes
unfolding on_read shown
on_read-shown bytes p =
    shown-append p.printed (
      read_bytes (length bytes)
      ∷ map cell (take (length bytes) (bytes ++ drop (0 + length bytes) p.storage)))
    ∙ ap (λ x. shown p.printed ++ x)
        (shown-map (take (length bytes) (bytes ++ drop (0 + length bytes) p.storage))
          ∙ take-append_eq (length bytes) bytes (drop (0 + length bytes) p.storage) refl)

one_line :
    (ls : List Line) (l : Line) (came : List ℕ)
    → shown (l ∷ []) ≡ []
    → shown ls ≡ came
    → shown (ls ++ l ∷ []) ≡ came ++ []
one_line ls l came none_shown e =
    shown-append ls (l ∷ []) ∙ ap (λ x. shown ls ++ x) none_shown ∙ ap (λ x. x ++ []) e

Step-IsShowing :
    {p q : Program} {came : List ℕ} (st : Step p q)
    → IsShowing came p
    → IsShowing (came ++ arrives st) q
unfolding on_read on_connect shown arrives
Step-IsShowing {p} {came = came} (connects true e) s = record {
  exact = one_line p.printed no_connection came refl s.exact;
  idle = λ over. s.idle (ap is_live e);
}
Step-IsShowing {p} {came = came} (connects false e) s = record {
  exact = one_line p.printed connected came refl s.exact;
  idle = λ over. absurd cc;
}
Step-IsShowing {p} {came = came} (writes n e few) s = record {
  exact = s.exact ∙ sym (append-nil came);
  idle = λ over. absurd cc;
}
Step-IsShowing {p} {came = came} (read_done true bytes r n) s = record {
  exact = s.exact ∙ sym (append-nil came);
  idle = λ over. refl;
}
Step-IsShowing {p} {came = came} (read_done false bytes r n) s = record {
  exact = on_read-shown bytes p ∙ ap (λ x. x ++ bytes) s.exact;
  idle = λ over. absurd (cc (r, s.idle over));
}
Step-IsShowing {p} {came = came} (wakes e) s = record {
  exact = one_line p.printed finished_reading came refl s.exact;
  idle = λ over. refl;
}

-- Through every history of the program, with reads that complete before and after the request is written: the
-- bytes printed are all that the reads without an error have brought, once and in their order, and no read is in
-- hand before the connection stands, once it has failed, or when `main` has ended.
pub program-IsShowing : {p : Program} {came : List ℕ} → Reach new_program came p → IsShowing came p
unfolding shown
program-IsShowing here = record { exact = refl; idle = λ over. refl }
program-IsShowing (next r st) = Step-IsShowing st (program-IsShowing r)
