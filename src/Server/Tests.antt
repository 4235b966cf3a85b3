-- ===== src/Server/Tests.antt =====
-- Runs of a server with an open and a closed connection.
use networking_cpp_intro.Common.{◌≡◌, refl, true, false, [], ◌∷◌, none, some, get_elem?}
use networking_cpp_intro.Message.{Message, empty_message}
use networking_cpp_intro.Connection.{Connection, posted_close, server, make_connection, complete}
use networking_cpp_intro.Server.{
  Server, base_hooks, is_connected, update, send_message_to_all_clients, on_completion,
}
use networking_cpp_intro.Server.Broadcast.{connected, disconnected, broadcast_cleans_queue}
use networking_cpp_intro.Server.Delivery.{
  posts, broadcast_delivers, send_times, closed_client_stays,
}
use networking_cpp_intro.Server.Update.{with_queue, update_in_order}

abbrev open_one : Connection
open_one = make_connection server 0 true [] 5 0

abbrev closed_one : Connection
closed_one = make_connection server 1 false [] 5 0

abbrev bare : Message
bare = empty_message 3

-- The closed connection stands first in the queue, and the open one behind it.
abbrev mixed : Server
mixed = record {
  store = open_one ∷ closed_one ∷ [];
  connections_queue = some 1 ∷ some 0 ∷ [];
  in_msg_queue =
      record { remote = some 0; msg = empty_message 2 }
      ∷ record { remote = some 0; msg = bare }
      ∷ [];
  id_counter = 7;
  dropped = [];
}

broadcast_cleans_queue_example :
    ((send_message_to_all_clients bare none mixed).connections_queue
      ≡ connected mixed.store (some 1 ∷ some 0 ∷ []))
    × ((send_message_to_all_clients bare none mixed).dropped
        ≡ disconnected mixed.store (some 1 ∷ some 0 ∷ []))
broadcast_cleans_queue_example = broadcast_cleans_queue bare none mixed

-- What the witness above says of this queue.
cleaned :
    (connected mixed.store (some 1 ∷ some 0 ∷ []) ≡ some 0 ∷ [])
    × (disconnected mixed.store (some 1 ∷ some 0 ∷ []) ≡ some 1 ∷ [])
unfolding make_connection
cleaned = (refl, refl)

broadcast_delivers_example :
    get_elem? (send_message_to_all_clients bare none mixed).store 0 ≡ some (posts 1 bare open_one)
unfolding make_connection
broadcast_delivers_example = broadcast_delivers bare none 0 mixed open_one refl

closed-not-connected : is_connected mixed.store (some 1) ≡ false
unfolding make_connection
closed-not-connected = refl

closed_client_stays_example :
    ((send_times 2 (some 1) bare mixed).connections_queue ≡ some 1 ∷ some 0 ∷ [])
    × ((send_times 2 (some 1) bare mixed).dropped ≡ some 1 ∷ some 1 ∷ [])
    × ((send_times 2 (some 1) bare mixed).store ≡ open_one ∷ closed_one ∷ [])
closed_client_stays_example = closed_client_stays 2 1 bare mixed closed-not-connected refl

update_in_order_example :
    update base_hooks 1 mixed ≡ with_queue (record { remote = some 0; msg = bare } ∷ []) mixed
update_in_order_example = update_in_order base_hooks 1 mixed (λ r m q s. refl)

-- The posted `close` of the open connection runs.
closed_run : (s' : Server) × (on_completion 0 posted_close false [] [] [] mixed ≡ some s')
unfolding on_completion complete
closed_run = (_, refl)

open_owner : open_one.owner ≡ server
unfolding make_connection
open_owner = refl
