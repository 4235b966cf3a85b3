-- ===== src/Connection/Handshake/Trust.antt =====
-- connection_net_interface.hpp: whatever the peer does, a server's end delivers messages only after
-- the right answer to its puzzle.
use networking_cpp_intro.Common.{
  ℕ, ◌%◌, ◌^◌, ◌≡◌, ◌≢◌, refl, sym, ap, ◌∙◌, Bool, true, false, List, [], ◌∷◌, ◌++◌, arith, some,
}
use networking_cpp_intro.Connection.{
  Connection, AsyncOp, posted_send, connecting, reading_header, reading_payload,
  reading_validation_request, checking_validation, server, send_data, complete, connect_to_client,
  make_connection, encrypt_handshake_data,
}
use networking_cpp_intro.Connection.Pending.{
  is_reading, is_checking, is_asking, select, select-resumed, select_not_none, select_of_only,
}
use networking_cpp_intro.Connection.Steps.{
  Link, Step, send, hang_up, completes, Reach, here, next, resumed,
}
use networking_cpp_intro.Connection.Handshake.Stages.{
  IsServing, waiting, passed, refused, Trusted, Leaves-Trusted,
}
use networking_cpp_intro.Connection.Handshake.Bystanders.{
  start-Leaves, resumed-Leaves, is_bystander, complete-Leaves, disconnect-Leaves,
}
use networking_cpp_intro.Connection.Handshake.Replies.{
  Reads, reading_kind, complete-Reads, on_check_validation-Trusted,
}

module _ {k : ℕ} (failed : Bool) (bytes : List ℕ) (before after : List AsyncOp)
    (c c' : Connection) where
  bystander-Trusted :
      (op : AsyncOp)
      → is_bystander op ≡ true
      → c.pending ≡ before ++ op ∷ after
      → complete op failed bytes (resumed before after c) ≡ some c'
      → Trusted k c
      → Trusted k c'
  bystander-Trusted op p e h t =
      Leaves-Trusted (complete-Leaves op failed bytes (resumed before after c) c' t.0.serves p h) (
        Leaves-Trusted
          (resumed-Leaves before after op c e (ground arith) (ground arith) (ground arith)) t)

  reading-Trusted :
      (op : AsyncOp)
      → is_reading op ≡ true
      → c.pending ≡ before ++ op ∷ after
      → complete op failed bytes (resumed before after c) ≡ some c'
      → Trusted k c
      → Trusted k c'
  reading-Trusted op p e h (s, passed n v a) =
      let r : Reads (resumed before after c) c' =
        complete-Reads op failed bytes (resumed before after c) c' p h in
      let still : select is_checking (before ++ after) ≡ [] =
        select-resumed is_checking before after op (reading_kind op p).0
        ∙ ap (select is_checking) (sym e)
        ∙ n in
      let idle : select is_asking (before ++ after) ≡ [] =
        select-resumed is_asking before after op (reading_kind op p).1
        ∙ ap (select is_asking) (sym e)
        ∙ s.asks_nothing in
      (
        record {
          serves = r.owner ∙ s.serves;
          expects = r.check ∙ s.expects;
          asks_nothing = r.asks ∙ idle;
        },
        passed (r.checks ∙ still) (r.count ∙ v) (r.answer ∙ a ∙ sym r.check),
      )
  reading-Trusted op p e h (s, waiting n q) =
      absurd (select_not_none is_reading before after op p (rw (← e) q.unread))
  reading-Trusted op p e h (s, refused n q b) =
      absurd (select_not_none is_reading before after op p (rw (← e) q.unread))

  checking-Trusted :
      c.pending ≡ before ++ checking_validation ∷ after
      → complete checking_validation failed bytes (resumed before after c) ≡ some c'
      → Trusted k c
      → Trusted k c'
  checking-Trusted e h (s, waiting p q) =
      on_check_validation-Trusted failed bytes (resumed before after c) c' serving
        (select_of_only is_checking before after checking_validation checking_validation refl
          (rw (← e) p)).1
        (record {
          unread = resumed_kind is_reading refl q.unread;
          undelivered = q.undelivered;
          not_validated = q.not_validated;
        })
        h
    where
      resumed_kind :
          (kind : AsyncOp → Bool)
          → kind checking_validation ≡ false
          → select kind c.pending ≡ []
          → select kind (before ++ after) ≡ []
      resumed_kind kind f g =
          select-resumed kind before after checking_validation f ∙ ap (select kind) (sym e) ∙ g

      serving : IsServing k (resumed before after c)
      serving = record {
        serves = s.serves;
        expects = s.expects;
        asks_nothing = resumed_kind is_asking refl s.asks_nothing;
      }
  checking-Trusted e h (s, passed p v a) =
      absurd (select_not_none is_checking before after checking_validation refl (rw (← e) p))
  checking-Trusted e h (s, refused p q b) =
      absurd (select_not_none is_checking before after checking_validation refl (rw (← e) p))

  pub completes-Trusted :
      (op : AsyncOp)
      → c.pending ≡ before ++ op ∷ after
      → complete op failed bytes (resumed before after c) ≡ some c'
      → Trusted k c
      → Trusted k c'
  completes-Trusted connecting e h t =
      absurd (select_not_none is_asking before after connecting refl (rw (← e) t.0.asks_nothing))
  completes-Trusted reading_validation_request e h t = absurd (
      select_not_none is_asking before after reading_validation_request refl
        (rw (← e) t.0.asks_nothing))
  completes-Trusted checking_validation e h t = checking-Trusted e h t
  completes-Trusted reading_header e h t = reading-Trusted reading_header refl e h t
  completes-Trusted reading_payload e h t = reading-Trusted reading_payload refl e h t
  completes-Trusted op e h t = bystander-Trusted op refl e h t

pub Step-Trusted : {k : ℕ} {l l' : Link} → Step l l' → Trusted k l.conn → Trusted k l'.conn
unfolding send_data
Step-Trusted {l = l} (send m) t =
    Leaves-Trusted (start-Leaves (posted_send m) l.conn refl refl refl) t
Step-Trusted {l = l} hang_up t = Leaves-Trusted (disconnect-Leaves l.conn) t
Step-Trusted {l = l} (completes before after op failed bytes put c e h) t =
    completes-Trusted failed bytes before after l.conn c op e h t

pub Reach-Trusted : {k : ℕ} {s l : Link} → Trusted k s.conn → Reach s l → Trusted k l.conn
Reach-Trusted t here = t
Reach-Trusted t (next r st) = Step-Trusted st (Reach-Trusted t r)

-- A connection that a server has accepted: constructed at clock count `now`, with `memory` in the
-- member that the constructor leaves unset, and told its number.
abbrev pub accepted : ℕ → ℕ → ℕ → ℕ → Link
accepted self u_id now memory = record {
  conn = connect_to_client u_id (make_connection server self true [] now memory);
  sent = [];
  submitted = [];
}

accepted-Trusted :
    (self u_id now memory : ℕ)
    → Trusted (encrypt_handshake_data (now % 2 ^ 64)) (accepted self u_id now memory).conn
unfolding connect_to_client make_connection
accepted-Trusted self u_id now memory = (
  record { serves = refl; expects = refl; asks_nothing = refl },
  waiting refl (record { unread = refl; undelivered = refl; not_validated = refl }),
)

pub delivered-Trusted :
    {k : ℕ} (c : Connection)
    → Trusted k c
    → c.in_msg_queue ≢ []
    → (c.validated ≡ 1) × (c.handshake_in ≡ k)
delivered-Trusted c (s, waiting p q) h = absurd (h q.undelivered)
delivered-Trusted c (s, passed p v a) h = (v, a ∙ s.expects)
delivered-Trusted c (s, refused p q b) h = absurd (h q.undelivered)

-- If an accepted connection has delivered a message then the server was told once of a validated
-- client, and the bytes read as its answer are the answer to the challenge.
pub delivery_needs_answer :
    (self u_id now memory : ℕ) {l : Link}
    → Reach (accepted self u_id now memory) l
    → l.conn.in_msg_queue ≢ []
    → (l.conn.validated ≡ 1) × (l.conn.handshake_in ≡ encrypt_handshake_data (now % 2 ^ 64))
delivery_needs_answer self u_id now memory {l} r h =
    delivered-Trusted l.conn (Reach-Trusted (accepted-Trusted self u_id now memory) r) h

closed_when_wrong :
    {k : ℕ} (c : Connection)
    → Trusted k c
    → select is_checking c.pending ≡ []
    → c.handshake_in ≢ k
    → (c.is_open ≡ false) × (c.in_msg_queue ≡ []) × (c.validated ≡ 0)
closed_when_wrong c (s, waiting p q) n w = cc
closed_when_wrong c (s, passed p v a) n w = absurd (w (a ∙ s.expects))
closed_when_wrong c (s, refused p q b) n w = (b, q.undelivered, q.not_validated)

-- Once no read of an answer is pending at an accepted connection, an answer that is not the right one
-- leaves the socket closed, no message
-- delivered and the server not told.
pub wrong_answer_closes :
    (self u_id now memory : ℕ) {l : Link}
    → Reach (accepted self u_id now memory) l
    → select is_checking l.conn.pending ≡ []
    → l.conn.handshake_in ≢ encrypt_handshake_data (now % 2 ^ 64)
    → (l.conn.is_open ≡ false) × (l.conn.in_msg_queue ≡ []) × (l.conn.validated ≡ 0)
wrong_answer_closes self u_id now memory {l} r n w =
    closed_when_wrong l.conn (Reach-Trusted (accepted-Trusted self u_id now memory) r) n w
