-- ===== src/Client.antt =====
-- include/custom_net_lib/net_client.hpp: `ClientBaseInterface`.
-- The I/O thread runs the handlers of the connection while the main thread calls the methods, so
-- what `Disconnect` does is two functions: handlers may run between them.
pub mod Laws
use networking_cpp_intro.Common.{
  ℕ, if◌then◌else◌, Bool, true, false, not, List, [], ◌++◌, ◌∷◌, Option, none, some, ◌>>=◌,
}
use networking_cpp_intro.TsQueue.{push_back}
use networking_cpp_intro.Message.{Message}
use networking_cpp_intro.Connection.{
  Connection, OwnedMessage, AsyncOp, complete, client, make_connection, connect_to_server,
  send_data, disconnect,
}

-- `io_stopped` is the state of the I/O service after `stop`, and `thread_joinable` that of the
-- thread. `released` holds the objects that the pointer let go of without destroying them.
pub record Client : Type 0 where
  pub connection_module : Option Connection
  pub input_message_queue : List OwnedMessage
  pub io_stopped : Bool
  pub thread_joinable : Bool
  pub released : List Connection

-- The constructor
abbrev pub new_client : Client
new_client = record {
  connection_module = none;
  input_message_queue = [];
  io_stopped = false;
  thread_joinable = false;
  released = [];
}

-- `isConnected`
abbrev pub has_connection : Client → Bool
has_connection cl = elim cl.connection_module [ none ↦ false | some c ↦ c.is_open ]

-- `unresolved`: the resolver throws. `none`: a thread is assigned to one that is still
-- joinable, which terminates the program.
unfoldable pub connect : Bool → ℕ → Client → Option (Client × Bool)
connect unresolved memory cl =
    if unresolved
    then some (cl, false)
    else if cl.thread_joinable
    then none
    else some (
      record cl {
        connection_module = some (connect_to_server (make_connection client 0 false [] 0 memory));
        thread_joinable = true;
      },
      true,
    )

-- The first part of `Disconnect`.
unfoldable pub close_posted : Client → Client
close_posted cl = record cl {
  connection_module = elim cl.connection_module [ none ↦ none | some c ↦ some (disconnect c) ];
}

-- The second part: the I/O service stops, the thread is joined, the pointer is released.
unfoldable pub stop_and_release : Client → Client
stop_and_release cl = record cl {
  connection_module = none;
  io_stopped = true;
  thread_joinable = false;
  released = elim cl.connection_module [ none ↦ cl.released | some c ↦ push_back c cl.released ];
}

-- `Send`
unfoldable pub send_message : Message → Client → Client
send_message msg cl = elim cl.connection_module [
  | none ↦ cl
  | some c ↦ if c.is_open then record cl { connection_module = some (send_data msg c) } else cl
]

-- The I/O service completes an entry of the connection's pending work. Once it has stopped it
-- completes none, since `restart` is never called.
unfoldable pub on_io :
    AsyncOp → Bool → List ℕ → List AsyncOp → List AsyncOp → Client → Option Client
on_io op failed bytes before after cl = do
  c ← if cl.io_stopped then none else cl.connection_module
  c' ←
      complete op failed bytes
        (record c { pending = before ++ after; in_msg_queue = cl.input_message_queue })
  some (record cl {
    connection_module = some (record c' { in_msg_queue = [] });
    input_message_queue = c'.in_msg_queue;
  })
