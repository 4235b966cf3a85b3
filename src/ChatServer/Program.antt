-- ===== src/ChatServer/Program.antt =====
-- custom_server.cpp: `main`, which starts the server and then handles messages without end, while the thread of the
-- I/O service runs.
use networking_cpp_intro.Common.{
  ℕ, ◌-◌, ◌^◌, ◌<◌, ◌≡◌, ◌≢◌, Bool, true, false, List, [], ◌∷◌, ◌++◌, All, some, get_elem?, arith,
}
use networking_cpp_intro.Connection.{Connection, AsyncOp}
use networking_cpp_intro.Server.{Server, update, on_completion}
use networking_cpp_intro.Server.Running
use networking_cpp_intro.Server.Running.{
  Process, Exception, from_thread, start, accept_completes, runs, new_process,
}
use networking_cpp_intro.Server.Trust.Safety.{FromValidated, only_validated_heard}
use networking_cpp_intro.ChatServer.{chat_hooks}
use networking_cpp_intro.ChatServer.Politeness.{chat_hooks-IsPolite}

-- `told`: it has been printed that the server was started.
pub record Program : Type 0 where
  pub process : Process
  pub told : Bool

abbrev pub new_program : ℕ → Program
new_program memory = record { process = new_process memory; told = false }

-- `update(-1, true)`, where it does not wait.
abbrev pub round : Program → Program
round p = record p {
  process = record p.process { server = update chat_hooks (2 ^ 64 - 1) p.process.server };
}

-- `main` does not look at what `Start` returns.
pub data Step (p : Program) : Program → Type 0 where
  starts :
      (e : Exception) (q : Process) (b : Bool)
      → p.told ≡ false
      → start e p.process ≡ some (q, b)
      → Step p (record { process = q; told = true })
  rounds : p.told ≡ true → p.process.server.in_msg_queue ≢ [] → Step p (round p)
  accepted :
      (failed peer_gone : Bool) (now memory : ℕ) (q : Process)
      → runs p.process ≡ true
      → 0 < p.process.accepts
      → accept_completes chat_hooks failed peer_gone now memory p.process ≡ some q
      → Step p (record p { process = q })
  completed :
      (place : ℕ) (op : AsyncOp) (failed : Bool) (bytes : List ℕ) (before after : List AsyncOp)
      (c : Connection) (s : Server)
      → runs p.process ≡ true
      → get_elem? p.process.server.store place ≡ some c
      → c.pending ≡ before ++ op ∷ after
      → on_completion place op failed bytes before after p.process.server ≡ some s
      → Step p (record p { process = record p.process { server = s } })

pub data Reach (p : Program) : Program → Type 0 where
  here : Reach p p
  next : {q r : Program} → Reach p q → Step q r → Reach p r

-- What `main` does is what a program may do with a server.
as_server : {p q : Program} → Step p q → Running.Step chat_hooks p.process q.process
as_server (starts e q b t h) = Running.starts e q b h
as_server (rounds t h) = Running.updates (2 ^ 64 - 1)
as_server (accepted failed gone now memory q r a e) =
    Running.accepted failed gone now memory q r a e
as_server (completed place op failed bytes before after c s r e w k) =
    Running.completed place op failed bytes before after c s r e w k

as_servers : {p q : Program} → Reach p q → Running.Reach chat_hooks p.process q.process
as_servers here = Running.here
as_servers (next r st) = Running.next (as_servers r) (as_server st)

-- Through every history of the chat server, each message that waits to be handled bears the pointer of a connection
-- object of the server which has read the answer to a challenge made from the clock's count, and of whose client the
-- server was told once that it is validated.
pub chat_only_validated :
    (memory : ℕ) {p : Program}
    → Reach (new_program memory) p
    → All (FromValidated p.process.server.store) p.process.server.in_msg_queue
chat_only_validated memory r = only_validated_heard memory chat_hooks-IsPolite (as_servers r)

record IsMute (p : Program) : Type 0 where
  has_told : p.told ≡ true
  no_thread : p.process.thread_joinable ≡ false

Step-IsMute : {p q : Program} → Step p q → IsMute p → IsMute q
Step-IsMute (starts e q b t h) m = absurd (cc (t, m.has_told))
Step-IsMute (rounds t h) m = record { has_told = m.has_told; no_thread = m.no_thread }
Step-IsMute (accepted failed gone now memory q r a e) m = absurd (ground (arith, r, m.no_thread))
Step-IsMute (completed place op failed bytes before after c s r e w k) m =
    absurd (ground (arith, r, m.no_thread))

Reach-IsMute : {p q : Program} → Reach p q → IsMute p → IsMute q
Reach-IsMute here m = m
Reach-IsMute (next r st) m = Step-IsMute st (Reach-IsMute r m)

-- Where the thread cannot be made, `main` goes on and prints that the server was started, and from then on no
-- handler ever runs.
pub started_without_thread :
    (memory : ℕ) {p q : Program} {b : Bool}
    → start from_thread (new_process memory) ≡ some (p.process, b)
    → p.told ≡ true
    → Reach p q
    → (q.told ≡ true) × (runs q.process ≡ false)
unfolding start
started_without_thread memory {p} {q} made told r =
    let m = Reach-IsMute r (record { has_told = told; no_thread = ground arith }) in
    (m.has_told, ground (arith, m.no_thread))
