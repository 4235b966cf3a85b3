-- ===== src/Connection/Writer/Account.antt =====
-- connection_net_interface.hpp: the write side. At most one message is being written, messages go
-- out whole and in the order in which they were queued, and nothing is written twice.

use networking_cpp_intro.Common.{
  ℕ, ◌≡◌, ◌∙◌, ltb, Bool, true, false, List, [], ◌∷◌, ◌++◌, some, arith,
}
use networking_cpp_intro.Message.{Message, size}
use networking_cpp_intro.Message.Wire.{payload_bytes, frame, frames}
use networking_cpp_intro.Connection.{
  Connection, AsyncOp, posted_send, posted_close, connecting, reading_header, reading_payload,
  writing_header, writing_payload, reading_validation_request, sending_validation,
  checking_validation, complete, on_connected, on_read_header, on_read_payload,
  on_validation_request, on_validation_sent, on_check_validation,
}
use networking_cpp_intro.Connection.Pending.{is_writing, select, select-start}

-- How far the writing has come. `owed` are the bytes of all messages that have been queued.
pub data Account (ws : List AsyncOp) (queue : List Message) (is_open : Bool) (sent owed : List ℕ)
    : Type 0 where
  idle : ws ≡ [] → queue ≡ [] → sent ≡ owed → Account ws queue is_open sent owed
  at_header :
      (m : Message) (rest : List Message)
      → ws ≡ writing_header ∷ []
      → queue ≡ m ∷ rest
      → sent ++ (frame m ++ frames rest) ≡ owed
      → Account ws queue is_open sent owed
  at_payload :
      (m : Message) (rest : List Message)
      → ws ≡ writing_payload ∷ []
      → queue ≡ m ∷ rest
      → ltb 0 (size m) ≡ true
      → sent ++ (payload_bytes m ++ frames rest) ≡ owed
      → Account ws queue is_open sent owed
  -- A write failed: the message stays at the head of the queue, and the socket is closed.
  broken :
      (m : Message) (rest : List Message) (lost : List ℕ)
      → ws ≡ []
      → queue ≡ m ∷ rest
      → is_open ≡ false
      → sent ++ lost ≡ owed
      → Account ws queue is_open sent owed

abbrev pub Accounted : Connection → List ℕ → List Message → Type 0
Accounted c sent submitted =
    Account (select is_writing c.pending) c.out_msg_queue c.is_open sent (frames submitted)

pub Account-keep :
    {ws ws' : List AsyncOp} {q q' : List Message} {b b' : Bool} {s s' o : List ℕ}
    → ws' ≡ ws
    → q' ≡ q
    → (b ≡ false → b' ≡ false)
    → s' ≡ s
    → Account ws q b s o
    → Account ws' q' b' s' o
Account-keep hw hq hb hs (idle w q e) = idle (hw ∙ w) (hq ∙ q) (hs ∙ e)
Account-keep hw hq hb hs (at_header m rest w q e) = at_header m rest (hw ∙ w) (hq ∙ q) (rw hs e)
Account-keep hw hq hb hs (at_payload m rest w q p e) =
    at_payload m rest (hw ∙ w) (hq ∙ q) p (rw hs e)
Account-keep hw hq hb hs (broken m rest lost w q c e) =
    broken m rest lost (hw ∙ w) (hq ∙ q) (hb c) (rw hs e)

-- What a handler that writes no message leaves alone.
pub record Keeps (c c' : Connection) : Type 0 where
  pub same_writes : select is_writing c'.pending ≡ select is_writing c.pending
  pub same_queue : c'.out_msg_queue ≡ c.out_msg_queue
  pub stays_closed : c.is_open ≡ false → c'.is_open ≡ false

abbrev pub is_plain : AsyncOp → Bool
is_plain (posted_send m) = false
is_plain writing_header = false
is_plain writing_payload = false
is_plain _ = true

pub complete-Keeps :
    (op : AsyncOp) (failed : Bool) (bytes : List ℕ) (c c' : Connection)
    → is_plain op ≡ true
    → complete op failed bytes c ≡ some c'
    → Keeps c c'
unfolding complete on_connected on_read_header on_read_payload on_validation_request
    on_validation_sent on_check_validation
complete-Keeps (posted_send m) failed bytes c c' p h = absurd (ground arith)
complete-Keeps posted_close failed bytes c c' p h = ground arith
complete-Keeps connecting failed bytes c c' p h =
    ground (arith, select-start is_writing c.pending reading_validation_request)
complete-Keeps reading_header failed bytes c c' p h = ground (
  arith,
  select-start is_writing c.pending reading_header,
  select-start is_writing c.pending reading_payload,
)
complete-Keeps reading_payload failed bytes c c' p h =
    ground (arith, select-start is_writing c.pending reading_header)
complete-Keeps writing_header failed bytes c c' p h = absurd (ground arith)
complete-Keeps writing_payload failed bytes c c' p h = absurd (ground arith)
complete-Keeps reading_validation_request failed bytes c c' p h =
    ground (arith, select-start is_writing c.pending sending_validation)
complete-Keeps sending_validation failed bytes c c' p h =
    ground (arith, select-start is_writing c.pending reading_header)
complete-Keeps checking_validation failed bytes c c' p h =
    ground (arith, select-start is_writing c.pending reading_header)
