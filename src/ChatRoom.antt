-- ===== src/ChatRoom.antt =====
-- other_ressources/async_io_with_cpp/simple_tcp_chat_server.cpp: the sessions of a chat room and the
-- server that posts to them. A session is known by a number, and `sessions` gives its object;
-- the set of clients is a list of numbers, since the order of an `unordered_set` is open.
pub mod Posting
pub mod Serving
pub mod Ordering
mod Tests
use networking_cpp_intro.Common.{
  ℕ, ◌+◌, ◌-◌, ◌==◌, if◌then◌else◌, Bool, true, false, ◌||◌, List, [], ◌∷◌, ◌++◌,
}

-- The three fixed lines, and the line that a client has sent, with its endpoint before it.
pub data Text : Type 0 where
  welcome newcomer one_less : Text
  said : List ℕ → Text

-- `reads` and `writes` are the numbers of reads and writes that the I/O service has in hand.
pub record Session : Type 0 where
  pub outgoing_msgs : List Text
  pub is_open : Bool
  pub reads : ℕ
  pub writes : ℕ

pub record Room : Type 0 where
  pub sessions : ℕ → Session
  pub clients : List ℕ
  pub created : ℕ

-- `Session::post`, which starts a write where no message was waiting.
abbrev pub post_to : Text → Session → Session
post_to message s = elim s.outgoing_msgs [
  | [] ↦ record s { outgoing_msgs = message ∷ []; writes = s.writes + 1 }
  | m ∷ rest ↦ record s { outgoing_msgs = m ∷ (rest ++ message ∷ []) }
]

abbrev pub modify : ℕ → (Session → Session) → (ℕ → Session) → ℕ → Session
modify i f sessions j = if i == j then f (sessions j) else sessions j

abbrev pub post_each : Text → List ℕ → (ℕ → Session) → ℕ → Session
post_each message [] sessions = sessions
post_each message (c ∷ cs) sessions = post_each message cs (modify c (post_to message) sessions)

-- `Server::post`
abbrev pub post : Text → Room → Room
post message r = record r { sessions = post_each message r.clients r.sessions }

abbrev pub is_client : ℕ → List ℕ → Bool
is_client c [] = false
is_client c (d ∷ ds) = d == c || is_client c ds

abbrev pub erase : ℕ → List ℕ → List ℕ
erase c [] = []
erase c (d ∷ ds) = if d == c then erase c ds else d ∷ erase c ds

-- The error handler that the server gives to a session.
abbrev pub on_error : ℕ → Room → Room
on_error c r =
    if is_client c r.clients then post one_less (record r { clients = erase c r.clients }) else r

abbrev pub close_session : ℕ → Room → Room
close_session c r = record r { sessions = modify c (λ s. record s { is_open = false }) r.sessions }

-- The session that is made for an accepted client, with the welcome posted.
abbrev pub accepted_session : Session
accepted_session =
    post_to welcome (record { outgoing_msgs = []; is_open = true; reads = 0; writes = 0 })

abbrev pub start_read : Session → Session
start_read s = record s { reads = s.reads + 1 }

-- The accept handler.
abbrev pub on_accept : Room → Room
on_accept r =
    let c = r.created in
    let placed = record r {
      sessions = modify c (λ s. accepted_session) r.sessions;
      created = c + 1;
    } in
    let told = post newcomer placed in
    record told { clients = c ∷ told.clients; sessions = modify c start_read told.sessions }

-- A read completes with a line, or fails.
abbrev pub on_read : Bool → List ℕ → ℕ → Room → Room
on_read failed line c r =
    let done = record r {
      sessions = modify c (λ s. record s { reads = s.reads - 1 }) r.sessions;
    } in
    if failed
    then on_error c (close_session c done)
    else let told = post (said line) done in
      record told { sessions = modify c start_read told.sessions }

-- `pop`, and the next write if a message is left.
abbrev pub pop_and_write : Session → Session
pop_and_write s = elim s.outgoing_msgs [
  | [] ↦ s
  | m ∷ rest ↦ elim rest [
    | [] ↦ record s { outgoing_msgs = [] }
    | n ∷ more ↦ record s { outgoing_msgs = n ∷ more; writes = s.writes + 1 }
  ]
]

abbrev pub on_write : Bool → ℕ → Room → Room
on_write failed c r =
    let done = record r {
      sessions = modify c (λ s. record s { writes = s.writes - 1 }) r.sessions;
    } in
    if failed
    then on_error c (close_session c done)
    else record done { sessions = modify c pop_and_write done.sessions }
