-- ===== src/Connection/Tests.antt =====
-- Runs of a connection.
use networking_cpp_intro.Common.{
  ℕ, ◌≤◌, length, some, ◌%◌, ◌^◌, ◌≡◌, ◌≢◌, refl, true, false, List, [], ◌∷◌, ◌++◌, arith, All,
  le_bytes, of_le_bytes,
}
use networking_cpp_intro.Message.{Message, empty_message, push}
use networking_cpp_intro.Message.Wire.{header_of_bytes, frames}
use networking_cpp_intro.Connection.{
  Connection, posted_send, sending_validation, checking_validation, reading_header, writing_header,
  server, client, encrypt_handshake_data, make_connection, connect_to_client, send_data, start,
  on_posted_send, on_write_header, on_validation_sent, on_check_validation, on_read_header,
  add_to_incoming_msg_queue, complete, on_validation_request, pop_and_continue,
}
use networking_cpp_intro.Connection.Pending.{is_checking, is_writing, select}
use networking_cpp_intro.Connection.Steps.{Link, send, completes, Reach, here, next, resumed, puts}
use networking_cpp_intro.Connection.Handshake.Exchange.{validation_bytes, handshake_succeeds}
use networking_cpp_intro.Connection.Handshake.Trust.{
  accepted, delivery_needs_answer, wrong_answer_closes,
}
use networking_cpp_intro.Connection.Writer.Order.{IsFresh, sent_in_order}
use networking_cpp_intro.Connection.Writer.Handlers.{completion_defined}
use networking_cpp_intro.Connection.Writer.Stuck.{IsStuck, after_failure, never_writes_again}
use networking_cpp_intro.Connection.Reader.{run_reads}
use networking_cpp_intro.Connection.Reader.Receipt.{Fits, IsListening, arrive}
use networking_cpp_intro.Connection.Reader.Arrival.{after_messages, run_reads-frames}
use networking_cpp_intro.Connection.Reader.Payloads.{second_value_lost}

-- A server's end, accepted at clock count 5 under the number 1.
abbrev start_link : Link
start_link = accepted 0 1 5 0

abbrev bare : Message
bare = empty_message 4

-- The challenge goes out, the right answer comes in, and then a bare message.
abbrev answer : List ℕ
answer = le_bytes 8 (encrypt_handshake_data 5)

answered_run : (l : Link) × Reach start_link l × (l.conn.in_msg_queue ≢ [])
unfolding connect_to_client make_connection complete on_validation_sent on_check_validation
    on_read_header add_to_incoming_msg_queue encrypt_handshake_data le_bytes of_le_bytes
    header_of_bytes
answered_run = (
  _,
  next
      (next
        (next here
          (completes [] (checking_validation ∷ []) sending_validation false [] 0 _ refl refl))
        (completes [] [] checking_validation false answer 0 _ refl refl))
      (completes [] [] reading_header false (4 ∷ 0 ∷ 0 ∷ 0 ∷ 0 ∷ 0 ∷ 0 ∷ 0 ∷ []) 0 _ refl refl),
  λ e. cc,
)

delivery_needs_answer_example :
    (answered_run.0.conn.validated ≡ 1)
    × (answered_run.0.conn.handshake_in ≡ encrypt_handshake_data (5 % 2 ^ 64))
delivery_needs_answer_example = delivery_needs_answer 0 1 5 0 answered_run.1 answered_run.2

-- Eight zero bytes are the wrong answer.
refused_run :
    (l : Link) × Reach start_link l
    × (select is_checking l.conn.pending ≡ [])
    × (l.conn.handshake_in ≢ encrypt_handshake_data (5 % 2 ^ 64))
unfolding connect_to_client make_connection complete on_check_validation encrypt_handshake_data
    of_le_bytes
refused_run = (
  _,
  next here (
      completes (sending_validation ∷ []) [] checking_validation false
        (0 ∷ 0 ∷ 0 ∷ 0 ∷ 0 ∷ 0 ∷ 0 ∷ 0 ∷ []) 0 _ refl refl),
  refl,
  λ e. absurd (omega arith),
)

wrong_answer_closes_example :
    (refused_run.0.conn.is_open ≡ false)
    × (refused_run.0.conn.in_msg_queue ≡ [])
    × (refused_run.0.conn.validated ≡ 0)
wrong_answer_closes_example = wrong_answer_closes 0 1 5 0 refused_run.1 refused_run.2 refused_run.3

start-IsFresh : IsFresh start_link
unfolding connect_to_client make_connection
start-IsFresh = record {
  no_write = refl;
  no_message = refl;
  nothing_sent = refl;
  nothing_submitted = refl;
}

-- A message is posted and queued; its header is being written.
posted_run :
    (l : Link) × Reach start_link l
    × (l.conn.pending ≡ (sending_validation ∷ checking_validation ∷ []) ++ writing_header ∷ [])
unfolding connect_to_client make_connection complete on_posted_send send_data
posted_run = (
  _,
  next (next here (send bare)) (
      completes (sending_validation ∷ checking_validation ∷ []) [] (posted_send bare) false [] 0 _
        refl refl),
  refl,
)

completion_defined_example :
    (c : Connection) × (complete writing_header true []
        (resumed (sending_validation ∷ checking_validation ∷ []) [] posted_run.0.conn)
      ≡ some c)
    × (length (select is_writing c.pending) ≤ 0)
completion_defined_example =
    completion_defined true [] (sending_validation ∷ checking_validation ∷ []) [] writing_header
      start-IsFresh posted_run.1 posted_run.2

-- The message is written.
written_run :
    (l : Link) × Reach start_link l
    × (l.conn.is_open ≡ true)
    × (select is_writing l.conn.pending ≡ [])
unfolding connect_to_client make_connection complete on_posted_send send_data on_write_header
    pop_and_continue
written_run = (
  _,
  next
      (next (next here (send bare)) (
        completes (sending_validation ∷ checking_validation ∷ []) [] (posted_send bare) false [] 0 _
          refl refl))
      (completes (sending_validation ∷ checking_validation ∷ []) [] writing_header false [] 0 _ refl
        refl),
  refl,
  refl,
)

sent_in_order_example :
    (lost : List ℕ) × (written_run.0.sent ++ lost ≡ frames written_run.0.submitted)
sent_in_order_example = sent_in_order start-IsFresh written_run.1

-- The write of the header fails with five of its bytes on the socket, and another message is sent.
failing :
    (c : Connection) × (complete writing_header true []
        (resumed (sending_validation ∷ checking_validation ∷ []) [] posted_run.0.conn)
      ≡ some c)
unfolding complete on_write_header
failing = (_, refl)

abbrev sent_later : Link
sent_later =
    let l = after_failure writing_header 5 failing.0 posted_run.0 in
    record l { conn = send_data bare l.conn }

never_writes_again_example :
    IsStuck sent_later.conn
    × (sent_later.sent
        ≡ posted_run.0.sent ++ puts writing_header true 5 posted_run.0.conn.out_msg_queue)
never_writes_again_example =
    never_writes_again {l = posted_run.0} {l' = sent_later}
      (sending_validation ∷ checking_validation ∷ []) [] writing_header [] 5 failing.0 start-IsFresh
      posted_run.1 posted_run.2 refl failing.1 (next here (send bare))

-- A client's end that listens, and two messages with a byte of a third.
abbrev listener : Connection
listener = start reading_header (make_connection client 0 true [] 0 0)

abbrev two : List Message
two = push (empty_message 3) (1 ∷ 2 ∷ 3 ∷ 4 ∷ []) ∷ empty_message 4 ∷ []

two_fit : All Fits two
unfolding push
two_fit = omega arith

listens : IsListening listener
unfolding make_connection
listens = refl

run_reads-frames_example :
    run_reads 4 (frames two ++ 9 ∷ []) listener ≡ (after_messages two listener, 9 ∷ [])
run_reads-frames_example =
    run_reads-frames two 4 (9 ∷ []) listener two_fit listens (omega arith) (omega arith)

handshake_succeeds_example :
    let s = connect_to_client 1 (make_connection server 0 true [] 5 0) in
    on_check_validation false
      (validation_bytes (on_validation_request false (validation_bytes s) listener))
      s
    ≡ start reading_header
        (record s { handshake_in = encrypt_handshake_data (5 % 2 ^ 64); validated = 1 })
handshake_succeeds_example = handshake_succeeds 0 1 5 0 listener

second_value_lost_example :
    arrive (empty_message 9) (push (push (empty_message 2) (1 ∷ 2 ∷ [])) (3 ∷ 4 ∷ []))
    ≡ arrive (empty_message 9) (push (push (empty_message 2) (1 ∷ 2 ∷ [])) (5 ∷ 6 ∷ []))
second_value_lost_example =
    second_value_lost (empty_message 9) 2 (1 ∷ 2 ∷ []) (3 ∷ 4 ∷ []) (5 ∷ 6 ∷ []) refl (omega arith)
