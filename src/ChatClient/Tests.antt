-- ===== src/ChatClient/Tests.antt =====
-- Runs of the client and of the chat client.
use networking_cpp_intro.Common.{◌≡◌, refl, true, false, [], ◌∷◌, none, some, arith}
use networking_cpp_intro.Message.{Message, empty_message}
use networking_cpp_intro.Connection.{
  Connection, OwnedMessage, reading_header, client, make_connection, complete,
}
use networking_cpp_intro.Connection.Reader.Receipt.{arrive}
use networking_cpp_intro.Client.{Client, new_client, has_connection, on_io}
use networking_cpp_intro.ChatServer.{message_from}
use networking_cpp_intro.ChatClient.{ping_times, ping_message, display}
use networking_cpp_intro.ChatClient.Display.{ping_round_trip}

abbrev stale : Message
stale = empty_message 9

ping_round_trip_example :
    display 1005 (arrive stale (arrive stale (ping_message 1000))) ≡ some (ping_times 1000 1005)
ping_round_trip_example = ping_round_trip stale stale 1000 1005 (omega arith)

abbrev up : Connection
up = make_connection client 0 true [] 0 0

abbrev hello : OwnedMessage
hello = record { remote = none; msg = arrive stale (message_from 70) }

abbrev greeted : Client
greeted = record new_client { connection_module = some up; input_message_queue = hello ∷ [] }

is_up : has_connection greeted ≡ true
unfolding make_connection
is_up = refl

owned_by_client : up.owner ≡ client
unfolding make_connection
owned_by_client = refl

-- A header without a payload comes in.
read_run :
    (cl' : Client) × (on_io reading_header false (3 ∷ 0 ∷ 0 ∷ 0 ∷ 0 ∷ 0 ∷ 0 ∷ 0 ∷ []) [] [] greeted
      ≡ some cl')
unfolding on_io complete
read_run = (_, refl)
