-- ===== src/Server/Incoming.antt =====
-- net_server.hpp: one queue of received messages for all connections.
use networking_cpp_intro.Common.{
  ℕ, ◌≡◌, ◌≢◌, sym, ◌⊎◌, inl, inr, Bool, List, [], ◌∷◌, ◌++◌, Option, some, get_elem?,
  get_elem?-set_ne, set, >>=-eq-some, eq_of_some, arith,
}
use networking_cpp_intro.Message.{Message}
use networking_cpp_intro.Connection.{Connection, OwnedMessage, AsyncOp, server, complete}
use networking_cpp_intro.Connection.Delivery.{Delivers, complete-Delivers}
use networking_cpp_intro.Server.{Server, on_completion}

-- The queue is as it was, or one message of the connection `self` stands behind all others.
abbrev pub Grows : ℕ → List OwnedMessage → List OwnedMessage → Type 0
Grows self q q' =
    (q' ≡ q) ⊎ ((m : Message) × (q' ≡ q ++ record { remote = some self; msg = m } ∷ []))

Delivers-Grows :
    (op : AsyncOp) (c c' : Connection)
    → c.owner ≡ server
    → Delivers op c c'
    → Grows c.self c.in_msg_queue c'.in_msg_queue
Delivers-Grows op c c' o (inl e) = inl e
Delivers-Grows op c c' o (inr (k, e)) = inr (c'.tmp_input_msg, ground arith)

-- Whatever completes on one server connection, the queue of received messages keeps its messages in
-- order and gains at most one, at its end and under that connection's name; a connection
-- at another place stays as it was.
pub completion_appends :
    (place : ℕ) (op : AsyncOp) (failed : Bool) (bytes : List ℕ) (before after : List AsyncOp)
    (s s' : Server) (c : Connection) (q : ℕ)
    → get_elem? s.store place ≡ some c
    → c.owner ≡ server
    → place ≢ q
    → on_completion place op failed bytes before after s ≡ some s'
    → Grows c.self s.in_msg_queue s'.in_msg_queue × (get_elem? s'.store q ≡ get_elem? s.store q)
unfolding on_completion
completion_appends place op failed bytes before after s s' c q h o ne e =
    let lent : Connection = record c { pending = before ++ after; in_msg_queue = s.in_msg_queue } in
    let finish : Connection → Option Server = λ c'. some (record s {
      store = set s.store place (record c' { in_msg_queue = [] });
      in_msg_queue = c'.in_msg_queue;
    }) in
    let (c', ok, done) = >>=-eq-some (complete op failed bytes lent) finish (rw h at e) in
    rw (sym (eq_of_some done)) (
      Delivers-Grows op lent c' o (complete-Delivers op failed bytes lent c' ok),
      get_elem?-set_ne s.store (record c' { in_msg_queue = [] }) ne,
    )
