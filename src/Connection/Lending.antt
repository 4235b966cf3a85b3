-- ===== src/Connection/Lending.antt =====
-- connection_net_interface.hpp: a connection works on the queue of received messages that its owner lends it.
use mathlib.Core.Option as Option
use networking_cpp_intro.Common.{
  ℕ, ◌≤◌, ◌≡◌, refl, sym, ◌∙◌, Bool, false, Bool-cases, inl, inr, ltb, List, [], ◌++◌, append-nil,
  some, arith,
}
use networking_cpp_intro.Message.Wire.{header_of_bytes}
use networking_cpp_intro.Connection.{
  Connection, AsyncOp, OwnedMessage, reading_header, reading_payload, complete, on_connected,
  on_posted_send, on_read_header, on_read_payload, pop_and_continue, on_write_header,
  on_write_payload, on_validation_request, on_validation_sent, on_check_validation,
  add_to_incoming_msg_queue,
}

abbrev pub lend : List OwnedMessage → Connection → Connection
lend q c = record c { in_msg_queue = q }

-- The same connection, with what came in put behind what the lent queue held.
abbrev pub returned : List OwnedMessage → Connection → Connection
returned q d = lend (q ++ d.in_msg_queue) d

complete-lend :
    (op : AsyncOp) (failed : Bool) (bytes : List ℕ) (q : List OwnedMessage) (c : Connection)
    → complete op failed bytes (lend q c)
      ≡ Option.map (returned q) (complete op failed bytes (lend [] c))
unfolding complete on_connected on_posted_send on_read_header on_read_payload pop_and_continue
    on_write_header on_write_payload on_validation_request on_validation_sent on_check_validation
    add_to_incoming_msg_queue
complete-lend reading_header false bytes q c =
    elim (Bool-cases (ltb 0 (header_of_bytes bytes).size)) [
      | inl full ↦ ground (arith, append-nil q)
      | inr bare ↦ ground arith
    ]
complete-lend reading_payload false bytes q c = refl
complete-lend _ failed bytes q c = ground (arith, append-nil q)

pub lent_completion :
    (op : AsyncOp) (failed : Bool) (bytes : List ℕ) (q : List OwnedMessage) (c c' : Connection)
    → complete op failed bytes (lend q c) ≡ some c'
    → (d : Connection) × (complete op failed bytes (lend [] c) ≡ some d) × (returned q d ≡ c')
lent_completion op failed bytes q c c' h =
    (Option.map-eq-some_iff (returned q) (complete op failed bytes (lend [] c))).0
      (sym (complete-lend op failed bytes q c) ∙ h)

-- The server is told of a validated client once more, or no more often than before.
pub complete-validated :
    (op : AsyncOp) (failed : Bool) (bytes : List ℕ) (c c' : Connection)
    → complete op failed bytes c ≡ some c'
    → (c.validated ≤ c'.validated) × (c'.self ≡ c.self)
unfolding complete on_connected on_posted_send on_read_header on_read_payload pop_and_continue
    on_write_header on_write_payload on_validation_request on_validation_sent on_check_validation
    add_to_incoming_msg_queue
complete-validated op failed bytes c c' h = ground arith
