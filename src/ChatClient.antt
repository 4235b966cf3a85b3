-- ===== src/ChatClient.antt =====
-- src/custom_client.cpp: `CustomClient` and the loop of the chat client.
-- Keys are the codes of their characters. A `system_clock::time_point` has eight bytes.
pub mod Display
pub mod Program
mod Tests
use networking_cpp_intro.Common.{
  ℕ, ◌==◌, if◌then◌else◌, Bool, true, false, List, [], ◌∷◌, Option, none, some, le_bytes,
  of_le_bytes, ◌>>=◌,
}
use networking_cpp_intro.Message.{Message, empty_message, push, pull}
use networking_cpp_intro.Client.{Client, has_connection, send_message}
use networking_cpp_intro.ChatServer.{server_accept, server_ping, message_all, code}

-- The message of `PingServer`.
abbrev pub ping_message : ℕ → Message
ping_message now = push (empty_message (code server_ping)) (le_bytes 8 now)

-- `PingServer`
pub ping_server : ℕ → Client → Client
ping_server now cl = send_message (ping_message now) cl

-- `MessageAll`
pub message_all_clients : Client → Client
message_all_clients cl = send_message (empty_message (code message_all)) cl

-- What the loop prints for a message: the two times of a ping, the number of a client, or a line.
pub data Shown : Type 0 where
  ping_times : ℕ → ℕ → Shown
  hello_from : ℕ → Shown
  accepted_line default_line : Shown

-- The switch on a message from the server; `none` reads outside the payload.
unfoldable pub display : ℕ → Message → Option Shown
display now msg =
    if msg.header.id == code server_ping
    then (do (v, rest) ← pull msg 8; some (ping_times (of_le_bytes v) now))
    else if msg.header.id == code message_all
    then (do (v, rest) ← pull msg 4; some (hello_from (of_le_bytes v)))
    else if msg.header.id == code server_accept
    then some accepted_line
    else some default_line

-- The branch of the loop without input.
pub poll : ℕ → Client → Option (Client × List Shown)
poll now cl =
    let next : Option (Client × List Shown) = elim cl.input_message_queue [
      | [] ↦ some (cl, [])
      | m ∷ rest ↦ do
        line ← display now m.msg
        some (record cl { input_message_queue = rest }, line ∷ [])
    ] in
    if has_connection cl then next else some (cl, [])

-- The branch of the loop with input: the client after it, and whether the program goes on. It ends
-- with 'q' and with ctrl+c.
pub on_key : ℕ → ℕ → Client → Client × Bool
unfolding ping_server message_all_clients
on_key now input_character cl =
    if input_character == 113
    then (cl, false)
    else if input_character == 112
    then (ping_server now cl, true)
    else if input_character == 109
    then (message_all_clients cl, true)
    else if input_character == 3
    then (cl, false)
    else (cl, true)
