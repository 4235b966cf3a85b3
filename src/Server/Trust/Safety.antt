-- ===== src/Server/Trust/Safety.antt =====
-- net_server.hpp: whom a running server listens to.
use networking_cpp_intro.Common.{
  ℕ, ◌%◌, ◌^◌, ◌∙◌, ◌≤◌, ◌≡◌, sym, subst, Bool, List, [], ◌∷◌, All, some, get_elem?, arith,
}
use networking_cpp_intro.Connection.{Connection, OwnedMessage, encrypt_handshake_data}
use networking_cpp_intro.Connection.Handshake.Stages.{waiting, passed, refused, Trusted}
use networking_cpp_intro.Server.{Hooks, on_accept}
use networking_cpp_intro.Server.Running.{
  Process, Exception, no_exception, from_accept, from_thread, start, stop, accept_completes, Step,
  starts, stops, updates, accepted, completed, Reach, here, next, new_process,
}
use networking_cpp_intro.Server.Sending.{IsPolite}
use networking_cpp_intro.Server.Trust.{AllObjects, IsGuarded, IsHeard, IsVigilant}
use networking_cpp_intro.Server.Trust.Hearing.{update-IsVigilant}
use networking_cpp_intro.Server.Trust.Welcoming.{on_accept-IsVigilant}
use networking_cpp_intro.Server.Trust.Receiving.{on_completion-IsVigilant}

start-server :
    (e : Exception) (p q : Process) (b : Bool) → start e p ≡ some (q, b) → q.server ≡ p.server
unfolding start
start-server no_exception p q b h = ground arith
start-server from_accept p q b h = ground arith
start-server from_thread p q b h = ground arith

accept-server :
    (h : Hooks) (failed gone : Bool) (now memory : ℕ) (p q : Process)
    → accept_completes h failed gone now memory p ≡ some q
    → q.server ≡ on_accept h failed now memory p.server
unfolding accept_completes
accept-server h failed gone now memory p q e = ground arith

Step-IsVigilant :
    {h : Hooks} {p q : Process}
    → IsPolite h
    → Step h p q
    → IsVigilant p.server
    → IsVigilant q.server
unfolding stop accept_completes
Step-IsVigilant {p = p} polite (starts e q b h) v =
    subst IsVigilant (sym (start-server e p q b h)) v
Step-IsVigilant polite stops v = v
Step-IsVigilant {h} {p} polite (updates n) v = update-IsVigilant h polite n p.server v
Step-IsVigilant {h} {p} polite (accepted failed gone now memory q r a e) v =
    subst IsVigilant (sym (accept-server h failed gone now memory p q e))
      (on_accept-IsVigilant h polite failed now memory p.server v)
Step-IsVigilant {h} {p} polite (completed place op failed bytes before after c s r e w k) v =
    on_completion-IsVigilant place op failed bytes before after c p.server s e w k v

Reach-IsVigilant :
    {h : Hooks} (memory : ℕ) {p : Process}
    → IsPolite h
    → Reach h (new_process memory) p
    → IsVigilant p.server
Reach-IsVigilant memory polite here = record { objects = λ q c e. absurd cc; messages = tt }
Reach-IsVigilant memory polite (next r st) =
    Step-IsVigilant polite st (Reach-IsVigilant memory polite r)

-- A message came through the object whose pointer it bears; the server was told once that the client there is
-- validated, and what the object last read as the client's answer is the answer to a challenge that was the clock's
-- count.
abbrev pub FromValidated : List Connection → OwnedMessage → Type 0
FromValidated store o =
    (place : ℕ) × (c : Connection) × (o.remote ≡ some place)
    × (get_elem? store place ≡ some c)
    × (c.validated ≡ 1)
    × ((now : ℕ) × (c.handshake_in ≡ encrypt_handshake_data (now % 2 ^ 64)))

validated-Trusted :
    {k : ℕ} (c : Connection)
    → Trusted k c
    → 1 ≤ c.validated
    → (c.validated ≡ 1) × (c.handshake_in ≡ c.handshake_check)
validated-Trusted c (s, waiting p q) one = absurd (omega (arith, one, q.not_validated))
validated-Trusted c (s, passed p v a) one = (v, a)
validated-Trusted c (s, refused p q b) one = absurd (omega (arith, one, q.not_validated))

all_validated :
    (store : List Connection) (os : List OwnedMessage)
    → AllObjects IsGuarded store
    → All (IsHeard store) os
    → All (FromValidated store) os
all_validated store [] guarded heard = tt
all_validated store (o ∷ os) guarded heard =
    let (place, c, r, e, one) = heard.0 in
    let (once, right) = validated-Trusted c (guarded place c e).trusted one in
    let (now, expected) = (guarded place c e).clocked in
    ((place, c, r, e, once, (now, right ∙ expected)), all_validated store os guarded heard.1)

-- Through every history of a server whose virtual methods only send messages, with any calls of `Start`, `Stop`
-- and `update`, any clients, and whatever they send: each message that waits for `onMessage` bears the pointer of
-- a connection object of the server which has read the answer to a challenge made from the clock's count, and of whose
-- client the server was told once that it is validated.
pub only_validated_heard :
    {h : Hooks} {p : Process} (memory : ℕ)
    → IsPolite h
    → Reach h (new_process memory) p
    → All (FromValidated p.server.store) p.server.in_msg_queue
only_validated_heard {h} {p} memory polite r =
    let v = Reach-IsVigilant memory polite r in
    all_validated p.server.store p.server.in_msg_queue v.objects v.messages
