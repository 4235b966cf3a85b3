-- ===== src/Connection.antt =====
-- include/custom_net_lib/connection_net_interface.hpp: one end of a connection.
-- A handler is a function of the object's state. What it asks of the I/O service is an entry of
-- `pending`; which entry completes next, with an error or with which bytes, is up to the
-- environment (Connection/Steps). `none` is undefined behaviour: `front` or `popFront` of an empty
-- queue. Console output is left out.
pub mod Pending
pub mod Steps
pub mod Channel
pub mod Writer
pub mod Handshake
pub mod Reader
pub mod Delivery
pub mod Lending
mod Tests
use networking_cpp_intro.Common.{
  ℕ, ◌+◌, ◌*◌, ◌/◌, ◌%◌, ◌^◌, ltb, ◌==◌, if◌then◌else◌, Bool, true, false, List, [], ◌∷◌, ◌++◌,
  Option, none, some, bit_and, bit_or, bit_xor, of_le_bytes, not,
}
use networking_cpp_intro.TsQueue.{is_empty, front, push_back, pop_front}
use networking_cpp_intro.Message.{Message, MessageHeader, empty_message, size, resize, overwrite}
use networking_cpp_intro.Message.Wire.{header_of_bytes}

pub data Owner : Type 0 where
  server client : Owner

-- `OwnedMessage<T>`: `remote` is the connection object that the message came through.
pub record OwnedMessage : Type 0 where
  pub remote : Option ℕ
  pub msg : Message

-- Work that waits in the I/O service: two posted lambdas, and the asynchronous operations.
pub data AsyncOp : Type 0 where
  posted_send : Message → AsyncOp
  posted_close : AsyncOp
  connecting : AsyncOp
  reading_header reading_payload : AsyncOp
  writing_header writing_payload : AsyncOp
  reading_validation_request sending_validation checking_validation : AsyncOp

-- `self` is the identity of the object, for `shared_from_this`. `in_msg_queue` is the queue of the
-- server or client that owns the connection, which the constructor takes by reference.
-- `validated` counts the calls of `server->onClientValidated`.
pub record Connection : Type 0 where
  pub self : ℕ
  pub owner : Owner
  pub id : ℕ
  pub is_open : Bool
  pub out_msg_queue : List Message
  pub in_msg_queue : List OwnedMessage
  pub tmp_input_msg : Message
  pub handshake_out : ℕ
  pub handshake_in : ℕ
  pub handshake_check : ℕ
  pub pending : List AsyncOp
  pub validated : ℕ

-- `async_read`, `async_write`, `async_connect`, `post`
abbrev pub start : AsyncOp → Connection → Connection
start op c = record c { pending = c.pending ++ op ∷ [] }

-- `socket_connection_.close()`
abbrev pub close : Connection → Connection
close c = record c { is_open = false }

-- A `uint64_t` shifted left loses what leaves the word.
unfoldable pub encrypt_handshake_data : ℕ → ℕ
encrypt_handshake_data input =
    let out = bit_xor input 0xDEADBEEDC0DECAFE in
    let swapped =
      bit_or (bit_and out 0xF0F0F0F0F0F0F0 / 2 ^ 4)
        (bit_and out 0xF0F0F0F0F0F0F0 * 2 ^ 4 % 2 ^ 64) in
    bit_xor swapped 0xC0DEFACE12345678

-- The constructor; `now` is the system clock's count, and `handshake_in_` starts with whatever the
-- memory holds.
unfoldable pub make_connection : Owner → ℕ → Bool → List OwnedMessage → ℕ → ℕ → Connection
make_connection parent self is_open input_queue now memory =
    let c : Connection = record {
      self = self;
      owner = parent;
      id = 0;
      is_open = is_open;
      out_msg_queue = [];
      in_msg_queue = input_queue;
      tmp_input_msg = empty_message 0;
      handshake_out = 0;
      handshake_in = memory;
      handshake_check = 0;
      pending = [];
      validated = 0;
    } in
    elim parent [
      | server ↦ record c {
        handshake_out = now % 2 ^ 64;
        handshake_check = encrypt_handshake_data (now % 2 ^ 64);
      }
      | client ↦ c
    ]

-- Calls from outside. `async_connect` opens the socket when it is started.
unfoldable pub connect_to_server : Connection → Connection
connect_to_server c = elim c.owner [
  | client ↦ start connecting (record c { is_open = true })
  | server ↦ c
]

unfoldable pub connect_to_client : ℕ → Connection → Connection
connect_to_client u_id c = elim c.owner [
  | server ↦
      if c.is_open
      then start checking_validation (start sending_validation (record c { id = u_id }))
      else c
  | client ↦ c
]

unfoldable pub disconnect : Connection → Connection
disconnect c = if c.is_open then start posted_close c else c

unfoldable pub send_data : Message → Connection → Connection
send_data msg_to_send c = start (posted_send msg_to_send) c

-- Completion handlers; `failed` stands for `ec`.

pub on_connected : Bool → Connection → Connection
on_connected failed c = if failed then c else start reading_validation_request c

-- The lambda that `SendData` posts.
unfoldable pub on_posted_send : Message → Connection → Connection
on_posted_send msg_to_send c =
    let writing = not (is_empty c.out_msg_queue) in
    let c' = record c { out_msg_queue = push_back msg_to_send c.out_msg_queue } in
    if writing then c' else start writing_header c'

unfoldable pub add_to_incoming_msg_queue : Connection → Connection
add_to_incoming_msg_queue c =
    start reading_header (record c { in_msg_queue = push_back owned c.in_msg_queue })
  where
    owned : OwnedMessage
    owned = record {
      remote = elim c.owner [ server ↦ some c.self | client ↦ none ];
      msg = c.tmp_input_msg;
    }

-- The read put `bytes` into the memory of the header.
unfoldable pub on_read_header : Bool → List ℕ → Connection → Connection
unfolding add_to_incoming_msg_queue
on_read_header failed bytes c =
    let header = header_of_bytes bytes in
    let tmp = record c.tmp_input_msg { header = header } in
    if failed
    then close c
    else if ltb 0 header.size
    then start reading_payload (record c {
      tmp_input_msg = record tmp { payload = resize header.size c.tmp_input_msg.payload };
    })
    else add_to_incoming_msg_queue (record c { tmp_input_msg = tmp })

-- The read put `bytes` at the start of the payload's memory.
pub on_read_payload : Bool → List ℕ → Connection → Connection
unfolding add_to_incoming_msg_queue
on_read_payload failed bytes c =
    let tmp = record c.tmp_input_msg { payload = overwrite 0 bytes c.tmp_input_msg.payload } in
    if failed then close c else add_to_incoming_msg_queue (record c { tmp_input_msg = tmp })

-- `popFront`, and the next header if a message is left.
pub pop_and_continue : Connection → Option Connection
pop_and_continue c = elim (pop_front c.out_msg_queue) [
  | none ↦ none
  | some (m, rest) ↦
      let c' = record c { out_msg_queue = rest } in
      some (if is_empty rest then c' else start writing_header c')
]

pub on_write_header : Bool → Connection → Option Connection
unfolding pop_and_continue
on_write_header failed c = if failed then some (close c) else elim (front c.out_msg_queue) [
  | none ↦ none
  | some m ↦ if ltb 0 (size m) then some (start writing_payload c) else pop_and_continue c
]

pub on_write_payload : Bool → Connection → Option Connection
unfolding pop_and_continue
on_write_payload failed c = if failed then some (close c) else pop_and_continue c

-- The read put eight bytes into `handshake_in_`.
pub on_validation_request : Bool → List ℕ → Connection → Connection
on_validation_request failed bytes c =
    if failed
    then close c
    else start sending_validation (record c {
      handshake_in = of_le_bytes bytes;
      handshake_out = encrypt_handshake_data (of_le_bytes bytes);
    })

pub on_validation_sent : Bool → Connection → Connection
on_validation_sent failed c =
    if failed then close c else elim c.owner [ client ↦ start reading_header c | server ↦ c ]

unfoldable pub on_check_validation : Bool → List ℕ → Connection → Connection
on_check_validation failed bytes c =
    let c' = record c { handshake_in = of_le_bytes bytes } in
    if failed
    then close c
    else if of_le_bytes bytes == c.handshake_check
    then start reading_header (record c' { validated = c.validated + 1 })
    else close c'

-- What the I/O service runs when an entry of `pending` completes.
unfoldable pub complete : AsyncOp → Bool → List ℕ → Connection → Option Connection
complete (posted_send m) failed bytes c = some (on_posted_send m c)
complete posted_close failed bytes c = some (close c)
complete connecting failed bytes c = some (on_connected failed c)
complete reading_header failed bytes c = some (on_read_header failed bytes c)
complete reading_payload failed bytes c = some (on_read_payload failed bytes c)
complete writing_header failed bytes c = on_write_header failed c
complete writing_payload failed bytes c = on_write_payload failed c
complete reading_validation_request failed bytes c = some (on_validation_request failed bytes c)
complete sending_validation failed bytes c = some (on_validation_sent failed c)
complete checking_validation failed bytes c = some (on_check_validation failed bytes c)
