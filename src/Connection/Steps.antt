-- ===== src/Connection/Steps.antt =====
-- connection_net_interface.hpp under an environment that chooses: calls of `SendData` and
-- `Disconnect` come at any time, and pending work completes in any order, with an error or not and
-- with any bytes read. A write that fails may have put a front of its buffer on the socket.
use networking_cpp_intro.Common.{◌≡◌, if◌then◌else◌, Bool, take, List, [], ◌∷◌, ◌++◌, ℕ, some}
use networking_cpp_intro.Message.{Message}
use networking_cpp_intro.Message.Wire.{header_bytes, payload_bytes}
use networking_cpp_intro.Connection.{
  Connection, AsyncOp, posted_send, writing_header, writing_payload, send_data, disconnect,
  complete,
}

-- A connection, the bytes that its `WriteHeader` and `writePayload` have put on the socket, and the
-- messages that have entered its out queue. The eight bytes of `SendValidationData` are not among
-- them.
pub record Link : Type 0 where
  pub conn : Connection
  pub sent : List ℕ
  pub submitted : List Message

-- The buffer of a write, as the queue stands when it completes.
abbrev pub transmits : AsyncOp → List Message → List ℕ
transmits writing_header (m ∷ rest) = header_bytes m.header
transmits writing_payload (m ∷ rest) = payload_bytes m
transmits _ _ = []

-- What the write of an entry has put on the socket when it completes: all of its buffer, or any
-- front of it where it fails.
abbrev pub puts : AsyncOp → Bool → ℕ → List Message → List ℕ
puts op failed put queue = if failed then take put (transmits op queue) else transmits op queue

abbrev pub submits : AsyncOp → List Message
submits (posted_send m) = m ∷ []
submits _ = []

-- The state in which the handler of an entry runs.
abbrev pub resumed : List AsyncOp → List AsyncOp → Connection → Connection
resumed before after c = record c { pending = before ++ after }

pub data Step (l : Link) : Link → Type 0 where
  send : (m : Message) → Step l (record l { conn = send_data m l.conn })
  hang_up : Step l (record l { conn = disconnect l.conn })
  completes :
      (before after : List AsyncOp) (op : AsyncOp) (failed : Bool) (bytes : List ℕ) (put : ℕ)
      (c : Connection)
      → l.conn.pending ≡ before ++ op ∷ after
      → complete op failed bytes (resumed before after l.conn) ≡ some c
      → Step l (record {
        conn = c;
        sent = l.sent ++ puts op failed put l.conn.out_msg_queue;
        submitted = l.submitted ++ submits op;
      })

pub data Reach (s : Link) : Link → Type 0 where
  here : Reach s s
  next : {t u : Link} → Reach s t → Step t u → Reach s u
