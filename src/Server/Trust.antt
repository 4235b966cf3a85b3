-- ===== src/Server/Trust.antt =====
-- net_server.hpp on top of connection_net_interface.hpp: the connection objects of a server, each at some stage
-- of the validation of its client.
pub mod Objects
pub mod Accepting
pub mod Hearing
pub mod Welcoming
pub mod Receiving
pub mod Safety
use networking_cpp_intro.Common.{ℕ, ◌%◌, ◌^◌, ◌≤◌, ◌≡◌, List, [], All, some, get_elem?}
use networking_cpp_intro.Connection.{Connection, OwnedMessage, encrypt_handshake_data}
use networking_cpp_intro.Server.{Server}
use networking_cpp_intro.Connection.Pending.{is_checking, select}
use networking_cpp_intro.Connection.Handshake.Stages.{IsServing, IsQuiet, Trusted}

-- The answer that an object expects is to a challenge that was the clock's count.
abbrev pub FromClock : ℕ → Type 0
FromClock answer = (now : ℕ) × (answer ≡ encrypt_handshake_data (now % 2 ^ 64))

-- An object at its place, as it is kept between two handlers.
pub record IsGuarded (place : ℕ) (c : Connection) : Type 0 where
  pub own_place : c.self ≡ place
  pub gives_back : c.in_msg_queue ≡ []
  pub trusted : Trusted c.handshake_check c
  pub clocked : FromClock c.handshake_check

-- An object that the accept handler has just made.
pub record IsRaw (place : ℕ) (c : Connection) : Type 0 where
  pub own_place : c.self ≡ place
  pub serving : IsServing c.handshake_check c
  pub unchecked : select is_checking c.pending ≡ []
  pub quiet : IsQuiet c
  pub clocked : FromClock c.handshake_check

-- What holds of all objects of a store.
abbrev pub AllObjects : (ℕ → Connection → Type 0) → List Connection → Type 0
AllObjects P store = (q : ℕ) (c : Connection) → get_elem? store q ≡ some c → P q c

-- No object has gone, and none has had a client validated less often.
pub record Extends (store store' : List Connection) : Type 0 where
  pub further :
      AllObjects
        (λ q c. (d : Connection) × (get_elem? store' q ≡ some d) × (c.validated ≤ d.validated))
        store

-- A message came through an object of the store whose client has been validated.
abbrev pub IsHeard : List Connection → OwnedMessage → Type 0
IsHeard store o =
    (place : ℕ) × (c : Connection) × (o.remote ≡ some place)
    × (get_elem? store place ≡ some c)
    × (1 ≤ c.validated)

-- All objects are guarded, and all messages that wait have been heard.
pub record IsVigilant (s : Server) : Type 0 where
  pub objects : AllObjects IsGuarded s.store
  pub messages : All (IsHeard s.store) s.in_msg_queue
