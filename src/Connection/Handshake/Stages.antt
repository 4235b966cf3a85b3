-- ===== src/Connection/Handshake/Stages.antt =====
-- connection_net_interface.hpp: how far the validation of a client has come, on the server's end.
use networking_cpp_intro.Common.{ℕ, ◌≡◌, sym, ◌∙◌, false, [], ◌∷◌, arith}
use networking_cpp_intro.Connection.{Connection, server, checking_validation}
use networking_cpp_intro.Connection.Pending.{is_reading, is_checking, is_asking, select}

-- Fixed from the start: the end is a server's, its puzzle's answer, and no client's work is pending.
pub record IsServing (answer : ℕ) (c : Connection) : Type 0 where
  pub serves : c.owner ≡ server
  pub expects : c.handshake_check ≡ answer
  pub asks_nothing : select is_asking c.pending ≡ []

-- No message is being read, and none has been delivered.
pub record IsQuiet (c : Connection) : Type 0 where
  pub unread : select is_reading c.pending ≡ []
  pub undelivered : c.in_msg_queue ≡ []
  pub not_validated : c.validated ≡ 0

pub data Stage (c : Connection) : Type 0 where
  waiting : select is_checking c.pending ≡ checking_validation ∷ [] → IsQuiet c → Stage c
  passed :
      select is_checking c.pending ≡ []
      → c.validated ≡ 1
      → c.handshake_in ≡ c.handshake_check
      → Stage c
  refused : select is_checking c.pending ≡ [] → IsQuiet c → c.is_open ≡ false → Stage c

-- What work that has no part in the validation leaves alone.
pub record Leaves (c c' : Connection) : Type 0 where
  pub owner : c'.owner ≡ c.owner
  pub check : c'.handshake_check ≡ c.handshake_check
  pub answer : c'.handshake_in ≡ c.handshake_in
  pub count : c'.validated ≡ c.validated
  pub delivered : c'.in_msg_queue ≡ c.in_msg_queue
  pub reads : select is_reading c'.pending ≡ select is_reading c.pending
  pub checks : select is_checking c'.pending ≡ select is_checking c.pending
  pub asks : select is_asking c'.pending ≡ select is_asking c.pending
  pub closed : c.is_open ≡ false → c'.is_open ≡ false

pub IsServing-Leaves : {k : ℕ} {c c' : Connection} → Leaves c c' → IsServing k c → IsServing k c'
IsServing-Leaves l s = ground arith

pub IsQuiet-Leaves : {c c' : Connection} → Leaves c c' → IsQuiet c → IsQuiet c'
IsQuiet-Leaves l s = ground arith

pub Stage-Leaves : {c c' : Connection} → Leaves c c' → Stage c → Stage c'
Stage-Leaves l (waiting p q) = waiting (l.checks ∙ p) (IsQuiet-Leaves l q)
Stage-Leaves l (passed p v e) = passed (l.checks ∙ p) (l.count ∙ v) (l.answer ∙ e ∙ sym l.check)
Stage-Leaves l (refused p q b) = refused (l.checks ∙ p) (IsQuiet-Leaves l q) (l.closed b)

-- A server's end at some stage of the validation.
abbrev pub Trusted : ℕ → Connection → Type 0
Trusted answer c = IsServing answer c × Stage c

pub Leaves-Trusted : {k : ℕ} {c c' : Connection} → Leaves c c' → Trusted k c → Trusted k c'
Leaves-Trusted l t = (IsServing-Leaves l t.0, Stage-Leaves l t.1)
