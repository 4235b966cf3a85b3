-- ===== src/ChatClient/Program.antt =====
-- src/custom_client.cpp: the thread that reads the keyboard and the loop of `main`, interleaved in any
-- order and with the handlers of the connection.
use networking_cpp_intro.Common.{
  ℕ, ◌==◌, ◌≡◌, if◌then◌else◌, Bool, true, ◌||◌, List, [], ◌∷◌, ◌++◌, Option, none, some,
}
use networking_cpp_intro.Connection.{Connection, AsyncOp}
use networking_cpp_intro.Client.{Client, on_io}
use networking_cpp_intro.ChatClient.{Shown, poll, on_key}

-- 'a', 'd', 'p', 'm', 's', 'q' and ctrl+c
unfoldable pub is_possable : ℕ → Bool
is_possable c =
    c == 97 || (c == 100 || (c == 112 || (c == 109 || (c == 115 || (c == 113 || c == 3)))))

-- `promise` is the key that the thread has passed on, `taken` lists those that `main` has got, and
-- `running` is false once `main` has returned.
pub record Program : Type 0 where
  pub keys : List ℕ
  pub promise : Option ℕ
  pub taken : List ℕ
  pub running : Bool
  pub client : Client

abbrev pub started : List ℕ → Client → Program
started keys cl = record { keys = keys; promise = none; taken = []; running = true; client = cl }

-- A round of the loop of `get_keyboard_input`, on the key that `getchar` returns.
abbrev pub get_keyboard_input : ℕ → Program → Program
get_keyboard_input input p = if is_possable input then record p { promise = some input } else p

-- The branch of the loop with a key, at the time `now`: `main` returns, or starts a new thread.
abbrev pub take_key : ℕ → ℕ → Program → Program
take_key now c p = record p {
  promise = none;
  taken = p.taken ++ c ∷ [];
  running = (on_key now c p.client).1;
  client = (on_key now c p.client).0;
}

pub data Step (p : Program) : Program → Type 0 where
  key_read :
      (input : ℕ) (rest : List ℕ)
      → p.running ≡ true
      → p.promise ≡ none
      → p.keys ≡ input ∷ rest
      → Step p (get_keyboard_input input (record p { keys = rest }))
  key_taken : (now c : ℕ) → p.running ≡ true → p.promise ≡ some c → Step p (take_key now c p)
  polled :
      (now : ℕ) (cl : Client) (lines : List Shown)
      → p.running ≡ true
      → p.promise ≡ none
      → poll now p.client ≡ some (cl, lines)
      → Step p (record p { client = cl })
  -- The thread of the I/O service completes an entry of the connection's pending work.
  io_done :
      (op : AsyncOp) (failed : Bool) (bytes : List ℕ) (before after : List AsyncOp) (c : Connection)
      (cl : Client)
      → p.client.connection_module ≡ some c
      → c.pending ≡ before ++ op ∷ after
      → on_io op failed bytes before after p.client ≡ some cl
      → Step p (record p { client = cl })

pub data Reach (p : Program) : Program → Type 0 where
  here : Reach p p
  next : {q r : Program} → Reach p q → Step q r → Reach p r
