-- ===== src/ChatServer/Tests.antt =====
-- Runs of the chat server with three connections.
use networking_cpp_intro.Common.{
  ◌++◌, replicate, ◌<◌, All, le_bytes, of_le_bytes, ◌≢◌, arith, ◌≡◌, refl, true, false, [], ◌∷◌,
  some, get_elem?,
}
use networking_cpp_intro.Message.{Message, empty_message}
use networking_cpp_intro.Message.Wire.{header_of_bytes}
use networking_cpp_intro.Connection.{
  Connection, server, posted_send, sending_validation, checking_validation, reading_header,
  make_connection, connect_to_client, send_data, complete, on_check_validation, on_read_header,
  add_to_incoming_msg_queue, encrypt_handshake_data,
}
use networking_cpp_intro.Server.{Server, on_accept, on_completion}
use networking_cpp_intro.Server.Running.{
  Process, no_exception, start, accept_completes, runs, starts, accepted, completed, Reach, here,
  next, new_process,
}
use networking_cpp_intro.Server.Running.Listening.{keeps_listening}
use networking_cpp_intro.Server.Trust.Safety.{FromValidated, only_validated_heard}
use networking_cpp_intro.Server.Delivery.{posts}
use networking_cpp_intro.ChatServer.{on_message, on_client_connect, chat_hooks}
use networking_cpp_intro.ChatServer.Politeness.{chat_hooks-IsPolite}
use networking_cpp_intro.ChatServer.Handlers.{message_all_reaches_others}
use networking_cpp_intro.ChatServer.Numbers.{accept_all, accepted_apart}

abbrev first : Connection
first = record (make_connection server 0 true [] 5 0) { id = 70 }

abbrev second : Connection
second = record (make_connection server 1 true [] 6 0) { id = 71 }

abbrev ping : Message
ping = empty_message 2

abbrev to_all : Message
to_all = empty_message 3

abbrev chat : Server
chat = record {
  store = first ∷ second ∷ [];
  connections_queue = some 0 ∷ some 1 ∷ [];
  in_msg_queue =
      record { remote = some 0; msg = to_all } ∷ record { remote = some 1; msg = ping } ∷ [];
  id_counter = 72;
  dropped = [];
}

message_all_reaches_others_example :
    get_elem? (on_message (some 0) to_all chat).store 1
    ≡ some (
        posts 1
          (record {
            header = record { id = 3; size = 4 };
            payload = le_bytes 4 70 ++ replicate 12 0;
          })
          second)
unfolding make_connection
message_all_reaches_others_example =
    message_all_reaches_others 0 1 to_all chat first second refl refl refl refl refl

-- The counter is about to wrap around.
abbrev wrapping : Server
wrapping = record {
  store = [];
  connections_queue = [];
  in_msg_queue = [];
  id_counter = 4294967295;
  dropped = [];
}

accepted_apart_example :
    let s = accept_all ((1, 2) ∷ (3, 4) ∷ []) wrapping in
    (c : Connection) × (d : Connection) × (get_elem? s.store 0 ≡ some c)
    × (get_elem? s.store 1 ≡ some d)
    × (c.id ≢ d.id)
accepted_apart_example =
    accepted_apart ((1, 2) ∷ (3, 4) ∷ []) 0 1 wrapping (omega arith) (omega arith) (omega arith)
      (omega arith) (omega arith)

-- A server that starts, accepts a client, reads its right answer and then a bare message.
greeted_run : (p : Process) × Reach chat_hooks (new_process 7) p × (p.server.in_msg_queue ≢ [])
unfolding start accept_completes on_accept on_client_connect on_completion send_data
    connect_to_client make_connection complete on_check_validation on_read_header
    add_to_incoming_msg_queue encrypt_handshake_data le_bytes of_le_bytes header_of_bytes
greeted_run = (
  _,
  next
      (next
        (next (next here (starts no_exception _ true refl))
          (accepted false false 5 0 _ refl (omega arith) refl))
        (completed 0 checking_validation false (le_bytes 8 (encrypt_handshake_data 5))
          (posted_send (empty_message 0) ∷ sending_validation ∷ []) [] _ _ refl refl refl refl))
      (completed 0 reading_header false (3 ∷ 0 ∷ 0 ∷ 0 ∷ 0 ∷ 0 ∷ 0 ∷ 0 ∷ [])
        (posted_send (empty_message 0) ∷ sending_validation ∷ []) [] _ _ refl refl refl refl),
  λ e. cc,
)

only_validated_heard_example :
    All (FromValidated greeted_run.0.server.store) greeted_run.0.server.in_msg_queue
only_validated_heard_example = only_validated_heard 7 chat_hooks-IsPolite greeted_run.1

-- A server that starts, and an accept that fails.
abbrev started : Process
started = record (new_process 7) { accepts = 1; thread_joinable = true }

starts_well : start no_exception (new_process 7) ≡ some (started, true)
unfolding start
starts_well = refl

listening_run : (p : Process) × Reach chat_hooks started p × (p.io_stopped ≡ false)
unfolding accept_completes on_accept on_client_connect
listening_run = (_, next here (accepted true false 5 0 _ refl (omega arith) refl), refl)

keeps_listening_example : (runs listening_run.0 ≡ true) × (0 < listening_run.0.accepts)
keeps_listening_example =
    keeps_listening (new_process 7) true starts_well listening_run.1 listening_run.2
