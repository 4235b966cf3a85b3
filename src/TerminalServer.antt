-- ===== src/TerminalServer.antt =====
-- other_ressources/async_io_with_cpp/simple_terminal_server.cpp: a server that runs commands for its
-- clients. `split`, which wraps Boost.Tokenizer, and `trim` of Boost.Algorithm are parameters.
pub mod Commands
pub mod Replies
pub mod Serving
mod Tests
use networking_cpp_intro.Common.{
  ℕ, zero, suc, ◌+◌, ◌-◌, ◌/◌, ◌%◌, ◌==◌, if◌then◌else◌, Bool, true, false, List, [], ◌∷◌, ◌++◌,
  drop, Option, none, some, ◌>>=◌, length, Text, codes, text_eq, text_lt,
}
use networking_cpp_intro.TsQueue.{is_empty}

-- What a handler does: it returns a string, or throws an exception with a text.
pub data Handled : Type 0 where
  returned thrown : Text → Handled

pub record DispatcherEntry : Type 0 where
  pub description : Text
  pub args : ℕ
  pub handler : List Text → Handled

-- A `std::map`: no key twice, in the order of the keys.
abbrev pub Dispatcher : Type 0
Dispatcher = List (Text × DispatcherEntry)

unfoldable pub find : Text → Dispatcher → Option DispatcherEntry
find name [] = none
find name ((key, entry) ∷ rest) = if text_eq key name then some entry else find name rest

unfoldable pub insert : Text → DispatcherEntry → Dispatcher → Dispatcher
insert name e [] = (name, e) ∷ []
insert name e ((key, entry) ∷ rest) =
    if text_lt name key then (name, e) ∷ (key, entry) ∷ rest else (key, entry) ∷ insert name e rest

-- `emplace` leaves an entry that is there.
unfoldable pub emplace : Text → DispatcherEntry → Dispatcher → Dispatcher
emplace name e dispatcher = elim (find name dispatcher) [
  | some old ↦ dispatcher
  | none ↦ insert name e dispatcher
]

-- A `std::size_t` on a stream; 20 digits are enough for 64 bits.
digits : ℕ → ℕ → Text → Text
digits zero n out = out
digits (suc fuel) n out =
    let more = digits fuel (n / 10) ((b'0' + n % 10) ∷ out) in
    if n / 10 == 0 then (b'0' + n % 10) ∷ out else more

pub decimal : ℕ → Text
unfolding digits
decimal n = digits 20 n []

-- `"\n\r"` and `"\r\n> "`
abbrev pub line_end : Text
line_end = 10 ∷ 13 ∷ []

abbrev pub prompt : Text
prompt = 13 ∷ 10 ∷ codes "> "

pub listing : Dispatcher → Text
listing [] = []
listing ((cmd, entry) ∷ rest) =
    codes "- " ++ (cmd ++ (codes ": " ++ (entry.description ++ (line_end ++ listing rest))))

abbrev pub run_handler : Handled → Text
run_handler (returned text) = text
run_handler (thrown what) = codes "An error has occured: " ++ what

abbrev pub wrong_count : ℕ → ℕ → Text
wrong_count expected provided =
    codes "Wrong arguments count. Expected: "
    ++ (decimal expected ++ (codes " , provided: " ++ decimal provided))

-- The response that `dispatch` builds for a command and its arguments.
unfoldable pub respond : Dispatcher → Text → List Text → Text
respond dispatcher name args = elim (find name dispatcher) [
  | some entry ↦
      if entry.args == length args
      then run_handler (entry.handler args)
      else wrong_count entry.args (length args)
  | none ↦ codes "Command not found. Available commands:" ++ (line_end ++ listing dispatcher)
]

-- `incoming` are the bytes in `incoming_buffer_`; `reads` and `writes` are the numbers of reads and writes
-- that the I/O service has in hand.
pub record Session : Type 0 where
  pub incoming : Text
  pub outgoing : List Text
  pub is_open : Bool
  pub reads : ℕ
  pub writes : ℕ

-- `write` with a string, without one, and `read`.
abbrev pub queue_text : Text → Session → Session
queue_text text s = record s { outgoing = s.outgoing ++ (text ++ prompt) ∷ [] }

abbrev pub start_write : Session → Session
start_write s = record s { writes = s.writes + 1 }

abbrev pub start_read : Session → Session
start_read s = record s { reads = s.reads + 1 }

-- The end of `dispatch`.
unfoldable pub write_reply : Text → Session → Session
write_reply text s =
    let s' = queue_text text s in if length s'.outgoing == 1 then start_write s' else s'

abbrev pub welcome : Text
welcome = codes "Welcome to my terminal server!"

-- `start` of a new session.
abbrev pub started : Session
started = start_read (
    start_write (
      queue_text welcome
        (record { incoming = []; outgoing = []; is_open = true; reads = 0; writes = 0 })))

-- `std::getline` on the bytes of a buffer: the line, and what stays behind its newline.
abbrev pub first_line : Text → Text
first_line [] = []
first_line (c ∷ rest) = let more = first_line rest in if c == 10 then [] else c ∷ more

abbrev pub behind_line : Text → Text
behind_line [] = []
behind_line (c ∷ rest) = let more = behind_line rest in if c == 10 then rest else more

module _ (split : Text → List Text) where
  -- `parse`; `none` is `args[0]` of an empty vector.
  abbrev pub parse : Text → Option (Text × List Text)
  parse line = elim (split line) [ [] ↦ none | name ∷ args ↦ some (name, args) ]

  abbrev pub reply : Dispatcher → Text → Option Text
  reply dispatcher line = do (name, args) ← parse line; some (respond dispatcher name args)

  abbrev pub dispatch : Dispatcher → Text → Session → Option Session
  dispatch dispatcher line s = do text ← reply dispatcher line; some (write_reply text s)

  -- A read completes: `getline` takes the line off the buffer, and `consume` discards as many bytes as
  -- were transferred off the rest, or all that is left.
  unfoldable pub on_read : (Text → Text) → Dispatcher → Bool → ℕ → Session → Option Session
  on_read trim dispatcher fails bytes_transferred s =
      let line = first_line s.incoming in
      let s' = record s {
        incoming = if fails then s.incoming else drop bytes_transferred (behind_line s.incoming);
        reads = s.reads - 1;
      } in
      if fails
      then some (record s' { is_open = false })
      else if is_empty (trim line)
      then some (start_read s')
      else (do s'' ← dispatch dispatcher (trim line) s'; some (start_read s''))

  -- `attach`; `none` is `cmd[0]` of an empty vector.
  unfoldable pub attach : Text → Text → (List Text → Handled) → Dispatcher → Option Dispatcher
  attach pattern_ description f dispatcher = do
    (name, params) ← parse pattern_
    some (
        emplace name (record { description = description; args = length params; handler = f })
          dispatcher)

-- A write completes: `pop`, and the next write if a text is left; after an error, nothing.
unfoldable pub on_write : Bool → Session → Session
on_write fails s =
    let s' = record s { writes = s.writes - 1 } in
    let rest = elim s.outgoing as (λ q. List Text) [ [] ↦ [] | text ∷ more ↦ more ] in
    let popped = record s' { outgoing = rest } in
    if fails then s' else if is_empty rest then popped else start_write popped
