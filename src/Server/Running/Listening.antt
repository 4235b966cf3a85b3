-- ===== src/Server/Running/Listening.antt =====
-- net_server.hpp: the server listens from `Start` to `Stop`, and never again.
use networking_cpp_intro.Common.{◌<◌, ◌≡◌, refl, Bool, true, false, some, arith}
use networking_cpp_intro.Server.{Hooks}
use networking_cpp_intro.Server.Running.{
  Process, Exception, no_exception, from_accept, from_thread, start, stop, runs, accept_completes,
  Step, starts, stops, updates, accepted, completed, Reach, here, next,
}

-- An accept is in hand, and the thread runs unless `Stop` has been called.
record IsListening (p : Process) : Type 0 where
  accepting : 0 < p.accepts
  running : p.io_stopped ≡ false → p.thread_joinable ≡ true

start-IsListening :
    (e : Exception) (p q : Process) (b : Bool)
    → start e p ≡ some (q, b)
    → IsListening p
    → IsListening q
unfolding start
start-IsListening no_exception p q b h l = record {
  accepting = ground (arith, l.accepting);
  running = λ alive. ground (arith, l.running);
}
start-IsListening from_accept p q b h l = record {
  accepting = ground (arith, l.accepting);
  running = λ alive. ground (arith, l.running);
}
start-IsListening from_thread p q b h l = record {
  accepting = ground (arith, l.accepting);
  running = λ alive. ground (arith, l.running);
}

Step-IsListening : {h : Hooks} {p q : Process} → Step h p q → IsListening p → IsListening q
unfolding stop accept_completes
Step-IsListening {p = p} (starts e q b h) l = start-IsListening e p q b h l
Step-IsListening stops l = record { accepting = l.accepting; running = λ alive. absurd cc }
Step-IsListening (updates n) l = record { accepting = l.accepting; running = l.running }
Step-IsListening {p = p} (accepted failed gone now memory q r a e) l = record {
  accepting = ground arith;
  running = λ alive. ground (arith, l.running);
}
Step-IsListening (completed place op failed bytes before after c s r e w k) l = record {
  accepting = l.accepting;
  running = l.running;
}

Reach-IsListening : {h : Hooks} {p q : Process} → IsListening p → Reach h p q → IsListening q
Reach-IsListening l here = l
Reach-IsListening l (next r st) = Step-IsListening st (Reach-IsListening l r)

started-IsListening :
    (p q : Process) (b : Bool) → start no_exception p ≡ some (q, b) → IsListening q
unfolding start
started-IsListening p q b e = record { accepting = ground arith; running = λ alive. ground arith }

-- After a `Start` that no exception ends, through any history in which `Stop` has not been called and no exception
-- has terminated the program, the thread runs the I/O service and an accept is in hand, whether the accepts before
-- failed, were turned down or brought a client.
pub keeps_listening :
    {h : Hooks} (p : Process) {q r : Process} (b : Bool)
    → start no_exception p ≡ some (q, b)
    → Reach h q r
    → r.io_stopped ≡ false
    → (runs r ≡ true) × (0 < r.accepts)
keeps_listening p {q} b e h alive =
    let l = Reach-IsListening (started-IsListening p q b e) h in
    (ground (arith, l.running alive), l.accepting)

Step-stopped : {h : Hooks} {p q : Process} → Step h p q → p.io_stopped ≡ true → q.io_stopped ≡ true
unfolding start stop accept_completes
Step-stopped (starts no_exception q b h) s = ground arith
Step-stopped (starts from_accept q b h) s = ground arith
Step-stopped (starts from_thread q b h) s = ground arith
Step-stopped stops s = refl
Step-stopped (accepted failed gone now memory q r a e) s = ground arith
Step-stopped _ s = s

-- Once `Stop` has been called, whatever follows, another `Start` that reports success included, the thread runs
-- no handler any more: no client is accepted, and nothing is read or written.
pub stop_is_final :
    {h : Hooks} (p : Process) {q : Process}
    → Reach h (stop p).0 q
    → (q.io_stopped ≡ true) × (runs q ≡ false)
unfolding stop
stop_is_final p here = (refl, refl)
stop_is_final p (next r st) = ground (arith, Step-stopped st (stop_is_final p r).0)
