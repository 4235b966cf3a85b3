-- ===== src/Server/Delivery.antt =====
-- net_server.hpp: who gets a broadcast message, and what a message to a closed connection does.
use networking_cpp_intro.Common.{
  ℕ, zero, suc, ◌≡◌, refl, sym, if◌then◌else◌, Bool, false, ◌&&◌, not, List, [], ◌∷◌, ◌++◌, Option,
  none, some, get_elem?, replicate, append-nil, append_assoc, arith,
}
use networking_cpp_intro.Message.{Message}
use networking_cpp_intro.Connection.{Connection, send_data}
use networking_cpp_intro.Server.{
  Server, is_connected, same_ref, erase_null, visit, send_loop, send_message_to_all_clients,
  send_message_to_client,
}
use networking_cpp_intro.Server.Store.{get_elem?-at}

abbrev pub occurrences : ℕ → List (Option ℕ) → ℕ
occurrences q [] = 0
occurrences q (ref ∷ refs) =
    if same_ref ref (some q) then suc (occurrences q refs) else occurrences q refs

-- `n` calls of `SendData` with the message.
abbrev pub posts : ℕ → Message → Connection → Connection
posts zero msg c = c
posts (suc n) msg c = posts n msg (send_data msg c)

-- Whether a broadcast is for this connection.
abbrev pub is_addressed : ℕ → Option ℕ → Connection → Bool
is_addressed q ignored c = c.is_open && not (same_ref (some q) ignored)

visit_at :
    (msg : Message) (ignored ref : Option ℕ) (q : ℕ) (s : Server) (c : Connection)
    → get_elem? s.store q ≡ some c
    → get_elem? (visit msg ignored ref s).store q
      ≡ some (if same_ref ref (some q) && is_addressed q ignored c then send_data msg c else c)
unfolding visit
visit_at msg ignored none q s c h = ground arith
visit_at msg none (some p) q s c h = ground (arith, get_elem?-at s.store p q (send_data msg) c)
visit_at msg (some i) (some p) q s c h = ground (arith, get_elem?-at s.store p q (send_data msg) c)

send_loop_at :
    (msg : Message) (ignored : Option ℕ) (refs : List (Option ℕ)) (q : ℕ) (s : Server)
    (c : Connection)
    → get_elem? s.store q ≡ some c
    → get_elem? (send_loop msg ignored refs s).0.store q
      ≡ some (posts (if is_addressed q ignored c then occurrences q refs else 0) msg c)
unfolding send_loop send_data
send_loop_at msg ignored [] q s c h = ground arith
send_loop_at msg ignored (ref ∷ refs) q s c h = ground (
  arith,
  visit_at msg ignored ref q s c h,
  send_loop_at msg ignored refs q (visit msg ignored ref s) c,
  send_loop_at msg ignored refs q (visit msg ignored ref s) (send_data msg c),
)

-- A broadcast posts the message to every open connection but the ignored one, as often as the queue
-- points to it, and changes no other connection.
pub broadcast_delivers :
    (msg : Message) (ignored : Option ℕ) (q : ℕ) (s : Server) (c : Connection)
    → get_elem? s.store q ≡ some c
    → get_elem? (send_message_to_all_clients msg ignored s).store q
      ≡ some
          (posts (if is_addressed q ignored c then occurrences q s.connections_queue else 0) msg c)
unfolding send_message_to_all_clients
broadcast_delivers msg ignored q s c h = send_loop_at msg ignored s.connections_queue q s c h

-- `n` messages to one client.
abbrev pub send_times : ℕ → Option ℕ → Message → Server → Server
send_times zero ref msg s = s
send_times (suc n) ref msg s = send_times n ref msg (send_message_to_client ref msg s)

-- A message to a client that is no longer connected: where the queue holds no null pointer it stays
-- as it is, the client's pointer included, so each further message finds the client again and
-- reports it once more.
pub closed_client_stays :
    (n : ℕ) (p : ℕ) (msg : Message) (s : Server)
    → is_connected s.store (some p) ≡ false
    → erase_null s.connections_queue ≡ s.connections_queue
    → ((send_times n (some p) msg s).connections_queue ≡ s.connections_queue)
      × ((send_times n (some p) msg s).dropped ≡ s.dropped ++ replicate n (some p))
      × ((send_times n (some p) msg s).store ≡ s.store)
unfolding send_message_to_client
closed_client_stays zero p msg s h e = (refl, sym (append-nil s.dropped), refl)
closed_client_stays (suc n) p msg s h e =
    let s' = send_message_to_client (some p) msg s in
    ground (
      arith,
      closed_client_stays n p msg s' (ground arith) (ground arith),
      append_assoc s.dropped (some p ∷ []) (replicate n (some p)),
    )
