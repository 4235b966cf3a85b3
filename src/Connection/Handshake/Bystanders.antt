-- ===== src/Connection/Handshake/Bystanders.antt =====
-- connection_net_interface.hpp: sending messages and closing have no part in the validation.
use networking_cpp_intro.Common.{ℕ, ◌≡◌, Bool, true, false, List, ◌∷◌, ◌++◌, not, ◌||◌, arith, some}
use networking_cpp_intro.Connection.{
  Connection, AsyncOp, posted_send, posted_close, writing_header, writing_payload,
  sending_validation, server, start, disconnect, complete, on_posted_send, pop_and_continue,
  on_write_header, on_write_payload, on_validation_sent,
}
use networking_cpp_intro.Connection.Pending.{
  is_reading, is_checking, is_asking, select-start, select-resumed,
}
use networking_cpp_intro.Connection.Steps.{resumed}
use networking_cpp_intro.Connection.Handshake.Stages.{Leaves}

-- An operation of another kind that is started.
pub start-Leaves :
    (op : AsyncOp) (c : Connection)
    → is_reading op ≡ false
    → is_checking op ≡ false
    → is_asking op ≡ false
    → Leaves c (start op c)
start-Leaves op c r k a = ground (
  arith,
  select-start is_reading c.pending op,
  select-start is_checking c.pending op,
  select-start is_asking c.pending op,
)

pub resumed-Leaves :
    (before after : List AsyncOp) (op : AsyncOp) (c : Connection)
    → c.pending ≡ before ++ op ∷ after
    → is_reading op ≡ false
    → is_checking op ≡ false
    → is_asking op ≡ false
    → Leaves c (resumed before after c)
resumed-Leaves before after op c e r k a = ground (
  arith,
  select-resumed is_reading before after op,
  select-resumed is_checking before after op,
  select-resumed is_asking before after op,
)

abbrev pub is_bystander : AsyncOp → Bool
is_bystander op = not (is_reading op || is_checking op || is_asking op)

pub complete-Leaves :
    (op : AsyncOp) (failed : Bool) (bytes : List ℕ) (c c' : Connection)
    → c.owner ≡ server
    → is_bystander op ≡ true
    → complete op failed bytes c ≡ some c'
    → Leaves c c'
unfolding complete on_posted_send on_write_header on_write_payload on_validation_sent
    pop_and_continue
complete-Leaves (posted_send m) failed bytes c c' o p h =
    ground (arith, start-Leaves writing_header c)
complete-Leaves posted_close failed bytes c c' o p h = ground (arith)
complete-Leaves writing_header failed bytes c c' o p h =
    ground (arith, start-Leaves writing_header c, start-Leaves writing_payload c)
complete-Leaves writing_payload failed bytes c c' o p h =
    ground (arith, start-Leaves writing_header c)
complete-Leaves sending_validation failed bytes c c' o p h = ground arith
complete-Leaves _ failed bytes c c' o p h = absurd (ground arith)

pub disconnect-Leaves : (c : Connection) → Leaves c (disconnect c)
unfolding disconnect
disconnect-Leaves c = ground (arith, start-Leaves posted_close c)
