-- ===== src/Server/Running.antt =====
-- net_server.hpp: the server with its I/O service and the thread that runs it. The program calls `Start`,
-- `update` and `Stop`, and while the thread runs, accepts and the pending work of the connections complete in
-- any order. A history goes on as long as no exception has terminated the program.
pub mod Listening
use networking_cpp_intro.Common.{
  ℕ, ◌+◌, ◌-◌, ◌<◌, ◌≡◌, if◌then◌else◌, Bool, true, false, not, ◌&&◌, List, [], ◌∷◌, ◌++◌, Option,
  none, some, get_elem?,
}
use networking_cpp_intro.Connection.{Connection, AsyncOp}
use networking_cpp_intro.Server.{Server, Hooks, update, on_accept, on_completion}

-- `accepts` is the number of accepts that the I/O service has in hand, `io_stopped` its state after `stop`,
-- and `thread_joinable` the state of `thr_io_serv_`.
pub record Process : Type 0 where
  pub server : Server
  pub accepts : ℕ
  pub io_stopped : Bool
  pub thread_joinable : Bool

-- The call that throws in `Start`, if one does.
pub data Exception : Type 0 where
  no_exception from_accept from_thread : Exception

-- `waitForClientConnection`
abbrev pub wait_for_client_connection : Process → Process
wait_for_client_connection p = record p { accepts = p.accepts + 1 }

-- `none`: a thread is assigned to one that is still joinable, which terminates the program.
unfoldable pub start : Exception → Process → Option (Process × Bool)
start no_exception p =
    if p.thread_joinable
    then none
    else some (record (wait_for_client_connection p) { thread_joinable = true }, true)
start from_accept p = some (p, false)
start from_thread p = some (wait_for_client_connection p, false)

-- The thread ends once the I/O service has stopped.
unfoldable pub stop : Process → Process × Bool
stop p = (record p { io_stopped = true; thread_joinable = false }, true)

-- An accept completes, and the next one is started. `none`: the peer of a socket that was accepted is
-- gone, so `sock.remote_endpoint()` throws, the exception leaves `run`, and the program is terminated.
unfoldable pub accept_completes : Hooks → Bool → Bool → ℕ → ℕ → Process → Option Process
accept_completes h failed peer_gone now memory p =
    if not failed && peer_gone
    then none
    else some (
        wait_for_client_connection
          (record p { server = on_accept h failed now memory p.server; accepts = p.accepts - 1 }))

abbrev pub runs : Process → Bool
runs p = p.thread_joinable && not p.io_stopped

pub data Step (h : Hooks) (p : Process) : Process → Type 0 where
  starts : (e : Exception) (q : Process) (b : Bool) → start e p ≡ some (q, b) → Step h p q
  stops : Step h p (stop p).0
  updates : (n : ℕ) → Step h p (record p { server = update h n p.server })
  accepted :
      (failed peer_gone : Bool) (now memory : ℕ) (q : Process)
      → runs p ≡ true
      → 0 < p.accepts
      → accept_completes h failed peer_gone now memory p ≡ some q
      → Step h p q
  completed :
      (place : ℕ) (op : AsyncOp) (failed : Bool) (bytes : List ℕ) (before after : List AsyncOp)
      (c : Connection) (s : Server)
      → runs p ≡ true
      → get_elem? p.server.store place ≡ some c
      → c.pending ≡ before ++ op ∷ after
      → on_completion place op failed bytes before after p.server ≡ some s
      → Step h p (record p { server = s })

pub data Reach (h : Hooks) (p : Process) : Process → Type 0 where
  here : Reach h p p
  next : {q r : Process} → Reach h p q → Step h q r → Reach h p r

-- The constructor; `memory` is what `idCounter_` starts with.
abbrev pub new_process : ℕ → Process
new_process memory = record {
  server = record {
    store = [];
    connections_queue = [];
    in_msg_queue = [];
    id_counter = memory;
    dropped = [];
  };
  accepts = 0;
  io_stopped = false;
  thread_joinable = false;
}
