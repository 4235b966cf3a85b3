-- ===== src/ChatServer/Handlers.antt =====
-- src/custom_server.cpp on top of net_server.hpp: what clients of the chat server get.
use networking_cpp_intro.Common.{
  ℕ, ◌^◌, ◌<◌, ◌-◌, take_of_le, drop_of_le, ◌≡◌, refl, ◌==◌, if◌then◌else◌, ◌++◌, replicate, true,
  false, List, [], none, some, length, get_elem?, le_bytes, of_le_bytes, of_le_bytes-le_bytes,
  length-le_bytes, arith, Option-cases, inl, inr,
}
use networking_cpp_intro.Message.{Message, push, pull}
use networking_cpp_intro.Connection.{Connection, send_data}
use networking_cpp_intro.Connection.Reader.Receipt.{arrive}
use networking_cpp_intro.Connection.Reader.Payloads.{single_value_arrives}
use networking_cpp_intro.Server.{Server, update}
use networking_cpp_intro.Server.Update.{
  with_queue, handled, IgnoresQueue, update_in_order, broadcast-with_queue,
}
use networking_cpp_intro.Server.Store.{get_elem?-at}
use networking_cpp_intro.Server.Delivery.{posts, occurrences, broadcast_delivers}
use networking_cpp_intro.ChatServer.{
  server_ping, message_all, code, on_message, message_from, chat_hooks,
}

-- The message that names a sender, spelled out.
message_from_lem :
    (id : ℕ)
    → message_from id
      ≡ record { header = record { id = 3; size = 4 }; payload = le_bytes 4 id ++ replicate 12 0 }
unfolding push le_bytes
message_from_lem id = refl

-- A chat message goes to every other open connection: if a message with id 3 (message-all) of the client at
-- place `p` is handled then the open connection at another place `q` is posted one message for each time the
-- queue points to it. That message has id 3 and states 4 elements, and its payload is the sending client's number
-- in four little-endian bytes, with twelve zero bytes behind.
pub message_all_reaches_others :
    (p q : ℕ) (m : Message) (s : Server) (c d : Connection)
    → m.header.id ≡ 3
    → get_elem? s.store p ≡ some c
    → get_elem? s.store q ≡ some d
    → (p == q) ≡ false
    → d.is_open ≡ true
    → get_elem? (on_message (some p) m s).store q
      ≡ some (
          posts
            (occurrences q s.connections_queue)
            (record {
              header = record { id = 3; size = 4 };
              payload = le_bytes 4 c.id ++ replicate 12 0;
            })
            d)
unfolding on_message
message_all_reaches_others p q m s c d e hp hq ne open_d =
    rw (← message_from_lem c.id)
      (ground (arith, broadcast_delivers (message_from c.id) (some p) q s d hq))

-- What arrives of the message that names a sender, whatever the receiving buffer held, gives the
-- sender's 32-bit number back.
pub sender_number_arrives :
    (tmp : Message) (id : ℕ)
    → id < 2 ^ 32
    → (v : List ℕ) × (m : Message) × (pull (arrive tmp (message_from id)) 4 ≡ some (v, m))
      × (of_le_bytes v ≡ id)
sender_number_arrives tmp id h =
    let n = length-le_bytes 4 id in
    let (m, e) =
      single_value_arrives tmp (code message_all) (le_bytes 4 id) (omega (arith, n))
        (omega (arith, n)) in
    (le_bytes 4 id, m, rw n at e, of_le_bytes-le_bytes 4 id h)

-- The handlers of the chat server leave the queue of received messages to `update`.
pub chat-IgnoresQueue : IgnoresQueue chat_hooks
unfolding on_message
chat-IgnoresQueue none m q s = ground arith
chat-IgnoresQueue (some p) m q s = elim (Option-cases (get_elem? s.store p)) [
  | inl e ↦ ground arith
  | inr (c, e) ↦ ground (arith, broadcast-with_queue (message_from c.id) (some p) q s)
]

-- One call of the chat server's `update(-1, true)` handles all messages that are queued, up to the
-- largest `size_t`, in the order of their arrival.
pub chat_update :
    (s : Server)
    → length s.in_msg_queue < 2 ^ 64
    → update chat_hooks (2 ^ 64 - 1) s ≡ with_queue [] (handled chat_hooks s.in_msg_queue s)
chat_update s h =
    rw
      (
        update_in_order chat_hooks (2 ^ 64 - 1) s chat-IgnoresQueue,
        drop_of_le (2 ^ 64 - 1) s.in_msg_queue (omega arith),
        take_of_le (2 ^ 64 - 1) s.in_msg_queue (omega arith),
      )
      refl

-- A ping is sent back as it came, to its sender; any other connection stays as it was.
pub ping_echoed :
    (p q : ℕ) (m : Message) (s : Server) (d : Connection)
    → m.header.id ≡ code server_ping
    → get_elem? s.store q ≡ some d
    → get_elem? (on_message (some p) m s).store q ≡ some (if p == q then send_data m d else d)
unfolding on_message
ping_echoed p q m s d e h = ground (arith, get_elem?-at s.store p q (send_data m) d h)
