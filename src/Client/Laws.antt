-- ===== src/Client/Laws.antt =====
-- net_client.hpp: what the client keeps, and what is left of it after `Disconnect`.
use networking_cpp_intro.Common.{
  ℕ, ◌≡◌, refl, Bool, true, false, List, [], ◌∷◌, ◌++◌, Option, none, some, ◌⊎◌, inl, inr, arith,
  >>=-eq-some, eq_of_some, sym,
}
use networking_cpp_intro.Message.{Message}
use networking_cpp_intro.Connection.{
  Connection, OwnedMessage, AsyncOp, client, complete, make_connection, connect_to_server,
}
use networking_cpp_intro.Connection.Delivery.{Delivers, complete-Delivers}
use networking_cpp_intro.Client.{Client, has_connection, connect, stop_and_release, on_io}

-- The queue is as it was, or one message without a sender stands behind all others.
abbrev pub Receives : List OwnedMessage → List OwnedMessage → Type 0
Receives q q' = (q' ≡ q) ⊎ ((m : Message) × (q' ≡ q ++ record { remote = none; msg = m } ∷ []))

Delivers-Receives :
    (op : AsyncOp) (c c' : Connection)
    → c.owner ≡ client
    → Delivers op c c'
    → Receives c.in_msg_queue c'.in_msg_queue
Delivers-Receives op c c' o (inl e) = inl e
Delivers-Receives op c c' o (inr (k, e)) = inr (c'.tmp_input_msg, ground arith)

-- Whatever completes on a client's connection, the queue of received messages keeps its messages in
-- order and gains at most one, at its end and without a sender.
pub io_appends :
    (op : AsyncOp) (failed : Bool) (bytes : List ℕ) (before after : List AsyncOp) (cl cl' : Client)
    (c : Connection)
    → cl.io_stopped ≡ false
    → cl.connection_module ≡ some c
    → c.owner ≡ client
    → on_io op failed bytes before after cl ≡ some cl'
    → Receives cl.input_message_queue cl'.input_message_queue
unfolding on_io
io_appends op failed bytes before after cl cl' c runs here o e =
    let lent : Connection = record c {
      pending = before ++ after;
      in_msg_queue = cl.input_message_queue;
    } in
    let finish : Connection → Option Client = λ c'. some (record cl {
      connection_module = some (record c' { in_msg_queue = [] });
      input_message_queue = c'.in_msg_queue;
      io_stopped = false;
    }) in
    let (c', ok, done) =
      >>=-eq-some (complete op failed bytes lent) finish (rw (runs, here) at e) in
    rw (sym (eq_of_some done))
      (Delivers-Receives op lent c' o (complete-Delivers op failed bytes lent c' ok))

-- After `Disconnect` a new `Connect` reports success and `isConnected` holds, but the I/O service
-- has stopped for good: no entry of the new connection's pending work is ever completed.
pub reconnect_is_dead :
    (memory : ℕ) (cl : Client)
    → (cl' : Client) × (connect false memory (stop_and_release cl) ≡ some (cl', true))
      × (has_connection cl' ≡ true)
      × ((op : AsyncOp) (failed : Bool) (bytes : List ℕ) (before after : List AsyncOp)
          → on_io op failed bytes before after cl' ≡ none)
unfolding connect stop_and_release on_io connect_to_server make_connection
reconnect_is_dead memory cl = (_, refl, refl, λ op failed bytes before after. refl)
