-- ===== src/Connection/Delivery.antt =====
-- connection_net_interface.hpp: what a completion does to the queue of received messages.
use networking_cpp_intro.Common.{
  ℕ, ◌≡◌, refl, ◌⊎◌, inl, inr, Bool, true, false, Bool-cases, ltb, List, none, some, arith,
}
use networking_cpp_intro.TsQueue.{push_back}
use networking_cpp_intro.Message.Wire.{header_of_bytes}
use networking_cpp_intro.Connection.{
  Connection, AsyncOp, reading_header, reading_payload, server, client, complete, on_connected,
  on_posted_send, on_read_header, on_read_payload, pop_and_continue, on_write_header,
  on_write_payload, on_validation_request, on_validation_sent, on_check_validation,
  add_to_incoming_msg_queue,
}
use networking_cpp_intro.Connection.Pending.{is_reading}

-- One message was added at the back, under the name of this connection; or none.
abbrev pub Delivers : AsyncOp → Connection → Connection → Type 0
Delivers op c c' =
    (c'.in_msg_queue ≡ c.in_msg_queue)
    ⊎ ((is_reading op ≡ true)
        × (c'.in_msg_queue
            ≡ push_back
                (record {
                  remote = elim c.owner [ server ↦ some c.self | client ↦ none ];
                  msg = c'.tmp_input_msg;
                })
                c.in_msg_queue))

-- Only the reads of messages deliver, and at most one message for each read.
pub complete-Delivers :
    (op : AsyncOp) (failed : Bool) (bytes : List ℕ) (c c' : Connection)
    → complete op failed bytes c ≡ some c'
    → Delivers op c c'
unfolding complete on_connected on_posted_send on_read_header on_read_payload pop_and_continue
    on_write_header on_write_payload on_validation_request on_validation_sent on_check_validation
    add_to_incoming_msg_queue
complete-Delivers reading_header true bytes c c' h = inl (ground arith)
complete-Delivers reading_header false bytes c c' h =
    elim (Bool-cases (ltb 0 (header_of_bytes bytes).size)) [
      | inl full ↦ inl (ground arith)
      | inr bare ↦ inr (refl, ground arith)
    ]
complete-Delivers reading_payload true bytes c c' h = inl (ground arith)
complete-Delivers reading_payload false bytes c c' h = inr (refl, ground arith)
complete-Delivers _ failed bytes c c' h = inl (ground arith)
