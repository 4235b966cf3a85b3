-- ===== src/Server.antt =====
-- include/custom_net_lib/net_server.hpp: `ServerInterfaceClass`.
-- Connection objects live in a store, and a `shared_ptr` to one is its place there (`none` is
-- `nullptr`). The virtual methods that change state are parameters (`Hooks`).
pub mod Store
pub mod Broadcast
pub mod Delivery
pub mod Update
pub mod Incoming
pub mod Running
pub mod Sending
pub mod Trust
mod Tests
use networking_cpp_intro.Common.{
  ℕ, zero, suc, ◌+◌, ◌%◌, ◌^◌, ◌==◌, if◌then◌else◌, Bool, true, false, not, ◌&&◌, List, [], ◌∷◌,
  ◌++◌, Option, none, some, length, get_elem?, set, ◌>>=◌,
}
use networking_cpp_intro.TsQueue.{push_back}
use networking_cpp_intro.Message.{Message}
use networking_cpp_intro.Connection.{
  Connection, OwnedMessage, AsyncOp, complete, server, close, make_connection, connect_to_client,
  send_data,
}

-- `dropped` lists the arguments of the calls of `onClientDisconnect`, which in this repository only
-- print. `id_counter` starts with whatever the memory holds: the class gives it no value.
pub record Server : Type 0 where
  pub store : List Connection
  pub connections_queue : List (Option ℕ)
  pub in_msg_queue : List OwnedMessage
  pub id_counter : ℕ
  pub dropped : List (Option ℕ)

-- `onClientConnect` and `onMessage`
pub record Hooks : Type 0 where
  pub on_client_connect : ℕ → Server → Server × Bool
  pub on_message : Option ℕ → Message → Server → Server

-- The base class rejects every connection and ignores every message.
abbrev pub base_hooks : Hooks
base_hooks = record { on_client_connect = λ p s. (s, false); on_message = λ r m s. s }

abbrev pub connection_at : List Connection → Option ℕ → Option Connection
connection_at store none = none
connection_at store (some p) = get_elem? store p

-- `ptr && ptr->IsConnected()`
abbrev pub is_connected : List Connection → Option ℕ → Bool
is_connected store ref = elim (connection_at store ref) [ none ↦ false | some c ↦ c.is_open ]

-- A call on the object that a pointer leads to.
abbrev pub at : Option ℕ → (Connection → Connection) → List Connection → List Connection
at none f store = store
at (some p) f store = elim (get_elem? store p) [ none ↦ store | some c ↦ set store p (f c) ]

-- `std::remove` and `erase` of null pointers
abbrev pub erase_null : List (Option ℕ) → List (Option ℕ)
erase_null [] = []
erase_null (none ∷ refs) = erase_null refs
erase_null (some p ∷ refs) = some p ∷ erase_null refs

-- `onClientDisconnect`
abbrev pub on_client_disconnect : Option ℕ → Server → Server
on_client_disconnect ref s = record s { dropped = push_back ref s.dropped }

-- The pointer is reset before it is looked for, so it is null pointers that are erased.
pub send_message_to_client : Option ℕ → Message → Server → Server
send_message_to_client client msg_to_send s =
    if is_connected s.store client
    then record s { store = at client (send_data msg_to_send) s.store }
    else let s' = on_client_disconnect client s in
      record s' { connections_queue = erase_null s'.connections_queue }

abbrev pub same_ref : Option ℕ → Option ℕ → Bool
same_ref none none = true
same_ref (some p) (some q) = p == q
same_ref _ _ = false

-- One round of the loop over the connections.
pub visit : Message → Option ℕ → Option ℕ → Server → Server
visit msg ignored ref s =
    if is_connected s.store ref
    then if same_ref ref ignored then s else record s { store = at ref (send_data msg) s.store }
    else on_client_disconnect ref s

-- The loop: the server after it, the pointers as they stand in the queue, and whether one was reset.
pub send_loop : Message → Option ℕ → List (Option ℕ) → Server → Server × List (Option ℕ) × Bool
send_loop msg ignored [] s = (s, [], false)
send_loop msg ignored (ref ∷ refs) s =
    let (s', refs', invalid) = send_loop msg ignored refs (visit msg ignored ref s) in
    if is_connected s.store ref then (s', ref ∷ refs', invalid) else (s', none ∷ refs', true)

pub send_message_to_all_clients : Message → Option ℕ → Server → Server
unfolding send_loop
send_message_to_all_clients msg ignored s =
    let (s', refs, invalid) = send_loop msg ignored s.connections_queue s in
    record s' { connections_queue = if invalid then erase_null refs else refs }

-- The loop of `update`, with the number of messages that it may still process. The wait before it is
-- TsQueue.Wakeup's.
unfoldable pub update : Hooks → ℕ → Server → Server
update h zero s = s
update h (suc n) s = elim s.in_msg_queue [
  | [] ↦ s
  | m ∷ rest ↦ update h n (h.on_message m.remote m.msg (record s { in_msg_queue = rest }))
]

-- The accept handler, but for the line that prints the address of the peer: `sock.remote_endpoint()`
-- throws where the peer is gone, and `accept_completes` of Server/Running has that way out. `now` and `memory` go to the constructor of the connection; a connection that
-- is turned down is destroyed, which closes its socket.
unfoldable pub on_accept : Hooks → Bool → ℕ → ℕ → Server → Server
on_accept h failed now memory s =
    let place = length s.store in
    let made = make_connection server place true [] now memory in
    let (s', welcome) = h.on_client_connect place (record s { store = push_back made s.store }) in
    if failed
    then s
    else if welcome
    then record s' {
      connections_queue = push_back (some place) s'.connections_queue;
      store = at (some place) (connect_to_client s'.id_counter) s'.store;
      id_counter = (s'.id_counter + 1) % 2 ^ 32;
    }
    else record s' { store = at (some place) close s'.store }

-- The I/O service completes an entry of one connection's pending work. The connection's queue of
-- received messages is the server's, which takes it back after the handler.
unfoldable pub on_completion :
    ℕ → AsyncOp → Bool → List ℕ → List AsyncOp → List AsyncOp → Server → Option Server
on_completion place op failed bytes before after s = do
  c ← get_elem? s.store place
  c' ←
      complete op failed bytes
        (record c { pending = before ++ after; in_msg_queue = s.in_msg_queue })
  some (record s {
    store = set s.store place (record c' { in_msg_queue = [] });
    in_msg_queue = c'.in_msg_queue;
  })
