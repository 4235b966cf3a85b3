-- ===== src/Server/Broadcast.antt =====
-- net_server.hpp: `sendMessageToAllClients` and `sendMessageToClient`.
use networking_cpp_intro.Common.{
  ℕ, ◌≡◌, refl, sym, if◌then◌else◌, Bool, false, List, [], ◌∷◌, ◌++◌, Option, none, some,
  append-nil, append_assoc, arith,
}
use networking_cpp_intro.Message.{Message}
use networking_cpp_intro.Connection.{Connection, send_data}
use networking_cpp_intro.Server.{
  Server, is_connected, erase_null, visit, send_loop, send_message_to_all_clients,
}
use networking_cpp_intro.Server.Store.{is_connected-at}

-- The pointers of a queue that lead to an open connection, and the others.
abbrev pub connected : List Connection → List (Option ℕ) → List (Option ℕ)
connected store [] = []
connected store (ref ∷ refs) =
    if is_connected store ref then ref ∷ connected store refs else connected store refs

abbrev pub disconnected : List Connection → List (Option ℕ) → List (Option ℕ)
disconnected store [] = []
disconnected store (ref ∷ refs) =
    if is_connected store ref then disconnected store refs else ref ∷ disconnected store refs

-- One round changes no answer of `IsConnected`.
visit-is_connected :
    (msg : Message) (ignored ref : Option ℕ) (s : Server) (r : Option ℕ)
    → is_connected (visit msg ignored ref s).store r ≡ is_connected s.store r
unfolding visit send_data
visit-is_connected msg ignored none s r = ground arith
visit-is_connected msg ignored (some p) s r =
    ground (arith, is_connected-at s.store p (send_data msg) r (λ c. refl))

connected-congr :
    (store store' : List Connection) (refs : List (Option ℕ))
    → ((r : Option ℕ) → is_connected store' r ≡ is_connected store r)
    → (connected store' refs ≡ connected store refs)
      × (disconnected store' refs ≡ disconnected store refs)
connected-congr store store' [] h = (refl, refl)
connected-congr store store' (r ∷ refs) h = ground (arith, h r, connected-congr store store' refs h)

-- The queue after the loop: null where the connection was found closed.
abbrev marked : List Connection → List (Option ℕ) → List (Option ℕ)
marked store [] = []
marked store (ref ∷ refs) = (if is_connected store ref then ref else none) ∷ marked store refs

erase_null-marked :
    (store : List Connection) (refs : List (Option ℕ))
    → erase_null (marked store refs) ≡ connected store refs
erase_null-marked store [] = refl
erase_null-marked store (none ∷ refs) = erase_null-marked store refs
erase_null-marked store (some p ∷ refs) = ground (arith, erase_null-marked store refs)

-- What the loop makes of the queue and of the calls of `onClientDisconnect`.
record Looped (s : Server) (refs : List (Option ℕ)) (r : Server × List (Option ℕ) × Bool)
    : Type 0 where
  queue : r.1 ≡ marked s.store refs
  calls : r.0.dropped ≡ s.dropped ++ disconnected s.store refs
  unmarked : r.2 ≡ false → r.1 ≡ connected s.store refs

marked-congr :
    (store store' : List Connection) (refs : List (Option ℕ))
    → ((r : Option ℕ) → is_connected store' r ≡ is_connected store r)
    → marked store' refs ≡ marked store refs
marked-congr store store' [] h = refl
marked-congr store store' (r ∷ refs) h = ground (arith, h r, marked-congr store store' refs h)

visit-dropped :
    (msg : Message) (ignored ref : Option ℕ) (s : Server)
    → (visit msg ignored ref s).dropped
      ≡ (if is_connected s.store ref then s.dropped else s.dropped ++ ref ∷ [])
unfolding visit
visit-dropped msg ignored ref s = ground arith

send_loop-Looped :
    (msg : Message) (ignored : Option ℕ) (refs : List (Option ℕ)) (s : Server)
    → Looped s refs (send_loop msg ignored refs s)
unfolding send_loop
send_loop-Looped msg ignored [] s = record {
  queue = refl;
  calls = sym (append-nil s.dropped);
  unmarked = λ h. refl;
}
send_loop-Looped msg ignored (ref ∷ refs) s =
    let s' = visit msg ignored ref s in
    let ih = send_loop-Looped msg ignored refs s' in
    let same = visit-is_connected msg ignored ref s in
    record {
      queue = ground (arith, ih.queue, marked-congr s.store s'.store refs same);
      calls = ground (
        arith,
        ih.calls,
        visit-dropped msg ignored ref s,
        connected-congr s.store s'.store refs same,
        append_assoc s.dropped (ref ∷ []) (disconnected s.store refs),
      );
      unmarked = λ h. ground (arith, ih.unmarked, connected-congr s.store s'.store refs same);
    }

-- After a broadcast the queue holds the pointers to open connections, in their order, and
-- `onClientDisconnect` has been called once for each of the others.
pub broadcast_cleans_queue :
    (msg : Message) (ignored : Option ℕ) (s : Server)
    → ((send_message_to_all_clients msg ignored s).connections_queue
        ≡ connected s.store s.connections_queue)
      × ((send_message_to_all_clients msg ignored s).dropped
          ≡ s.dropped ++ disconnected s.store s.connections_queue)
unfolding send_message_to_all_clients
broadcast_cleans_queue msg ignored s =
    let l = send_loop-Looped msg ignored s.connections_queue s in
    (ground (arith, l.queue, l.unmarked, erase_null-marked s.store s.connections_queue), l.calls)
