-- ===== src/Server/Update.antt =====
-- net_server.hpp: the loop of `update`.
use networking_cpp_intro.Common.{
  ℕ, zero, suc, ◌≡◌, refl, ap, ◌∙◌, List, [], ◌∷◌, Option, take, drop, arith,
}
use networking_cpp_intro.Message.{Message}
use networking_cpp_intro.Connection.{OwnedMessage}
use networking_cpp_intro.Server.{
  Server, Hooks, update, visit, send_loop, send_message_to_all_clients,
}

-- The server whose queue of received messages is `q`.
abbrev pub with_queue : List OwnedMessage → Server → Server
with_queue q s = record s { in_msg_queue = q }

-- `onMessage` for each message in turn.
abbrev pub handled : Hooks → List OwnedMessage → Server → Server
handled h [] s = s
handled h (m ∷ ms) s = handled h ms (h.on_message m.remote m.msg s)

-- A handler that neither reads nor writes the queue of received messages.
abbrev pub IgnoresQueue : Hooks → Type 0
IgnoresQueue h =
    (r : Option ℕ) (m : Message) (q : List OwnedMessage) (s : Server)
    → h.on_message r m (with_queue q s) ≡ with_queue q (h.on_message r m s)

update-with_queue :
    (h : Hooks)
    → IgnoresQueue h
    → (n : ℕ) (q : List OwnedMessage) (s : Server)
    → update h n (with_queue q s) ≡ with_queue (drop n q) (handled h (take n q) s)
unfolding update
update-with_queue h ignores zero q s = refl
update-with_queue h ignores (suc n) [] s = refl
update-with_queue h ignores (suc n) (m ∷ q) s =
    ap (update h n) (ignores m.remote m.msg q s)
    ∙ update-with_queue h ignores n q (h.on_message m.remote m.msg s)

-- With a limit of `n` and a handler that leaves the queue of received messages alone, the first `n` messages are handled, oldest first and each once, and the rest
-- stay queued; a queue that is shorter is emptied.
pub update_in_order :
    (h : Hooks) (n : ℕ) (s : Server)
    → IgnoresQueue h
    → update h n s ≡ with_queue (drop n s.in_msg_queue) (handled h (take n s.in_msg_queue) s)
update_in_order h n s ignores = update-with_queue h ignores n s.in_msg_queue s

visit-with_queue :
    (msg : Message) (ignored ref : Option ℕ) (q : List OwnedMessage) (s : Server)
    → visit msg ignored ref (with_queue q s) ≡ with_queue q (visit msg ignored ref s)
unfolding visit
visit-with_queue msg ignored ref q s = ground arith

send_loop-with_queue :
    (msg : Message) (ignored : Option ℕ) (refs : List (Option ℕ)) (q : List OwnedMessage)
    (s : Server)
    → send_loop msg ignored refs (with_queue q s) ≡ (
        let (s', refs', invalid) = send_loop msg ignored refs s in
        (with_queue q s', refs', invalid))
unfolding send_loop
send_loop-with_queue msg ignored [] q s = refl
send_loop-with_queue msg ignored (ref ∷ refs) q s =
    rw (visit-with_queue msg ignored ref q s)
      (ground (arith, send_loop-with_queue msg ignored refs q (visit msg ignored ref s)))

-- A broadcast has nothing to do with the queue of received messages.
pub broadcast-with_queue :
    (msg : Message) (ignored : Option ℕ) (q : List OwnedMessage) (s : Server)
    → send_message_to_all_clients msg ignored (with_queue q s)
      ≡ with_queue q (send_message_to_all_clients msg ignored s)
unfolding send_message_to_all_clients
broadcast-with_queue msg ignored q s =
    ground (arith, send_loop-with_queue msg ignored s.connections_queue q s)
