-- ===== src/Connection/Channel/Reception.antt =====
-- The reading side of a channel: how far it has come with the bytes of the messages.
use networking_cpp_intro.Common.{ℕ, ◌≡◌, refl, ◌∙◌, Bool, true, List, some, arith}
use networking_cpp_intro.Message.{Message}
use networking_cpp_intro.Connection.{
  Connection, AsyncOp, posted_send, posted_close, writing_header, writing_payload, send_data,
  disconnect, complete, on_posted_send, on_write_header, on_write_payload, pop_and_continue,
}
use networking_cpp_intro.Connection.Pending.{is_reading, select, select-start}
use networking_cpp_intro.Connection.Channel.{is_sending}

-- Two connections that have read the same.
pub record SameReader (c d : Connection) : Type 0 where
  pub same_queue : c.in_msg_queue ≡ d.in_msg_queue
  pub same_message : c.tmp_input_msg ≡ d.tmp_input_msg
  pub same_owner : c.owner ≡ d.owner
  pub same_self : c.self ≡ d.self

pub SameReader-trans : {c d e : Connection} → SameReader c d → SameReader d e → SameReader c e
SameReader-trans h k = record {
  same_queue = h.same_queue ∙ k.same_queue;
  same_message = h.same_message ∙ k.same_message;
  same_owner = h.same_owner ∙ k.same_owner;
  same_self = h.same_self ∙ k.same_self;
}

-- What the reading side keeps while it does something else.
pub record Undisturbed (c c' : Connection) : Type 0 where
  pub same_reader : SameReader c' c
  pub same_reads : select is_reading c'.pending ≡ select is_reading c.pending

pub send_data-Undisturbed : (m : Message) (c : Connection) → Undisturbed c (send_data m c)
unfolding send_data
send_data-Undisturbed m c = record {
  same_reader = record {
    same_queue = refl;
    same_message = refl;
    same_owner = refl;
    same_self = refl;
  };
  same_reads = select-start is_reading c.pending (posted_send m) refl;
}

pub disconnect-Undisturbed : (c : Connection) → Undisturbed c (disconnect c)
unfolding disconnect
disconnect-Undisturbed c = record {
  same_reader = ground arith;
  same_reads = ground (arith, select-start is_reading c.pending posted_close);
}

pub complete-Undisturbed :
    (op : AsyncOp) (failed : Bool) (bytes : List ℕ) (c c' : Connection)
    → is_sending op ≡ true
    → complete op failed bytes c ≡ some c'
    → Undisturbed c c'
unfolding complete on_posted_send on_write_header on_write_payload pop_and_continue
complete-Undisturbed (posted_send m) failed bytes c c' is ok =
    ground (arith, select-start is_reading c.pending writing_header)
complete-Undisturbed posted_close failed bytes c c' is ok = ground arith
complete-Undisturbed writing_header failed bytes c c' is ok = ground (
  arith,
  select-start is_reading c.pending writing_header,
  select-start is_reading c.pending writing_payload,
)
complete-Undisturbed writing_payload failed bytes c c' is ok =
    ground (arith, select-start is_reading c.pending writing_header)
complete-Undisturbed _ failed bytes c c' is ok = absurd (ground arith)
