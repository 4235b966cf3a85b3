-- ===== src/ChatClient/Display.antt =====
-- src/custom_client.cpp with src/custom_server.cpp: what the client prints of the server's answers.
use networking_cpp_intro.Common.{
  ℕ, ◌<◌, ◌^◌, ◌≡◌, refl, ap, ◌∙◌, List, [], ◌∷◌, none, some, arith, le_bytes, length-le_bytes,
  of_le_bytes-le_bytes, true,
}
use networking_cpp_intro.Message.{Message, empty_message, push}
use networking_cpp_intro.Connection.{OwnedMessage}
use networking_cpp_intro.Connection.Reader.Receipt.{arrive}
use networking_cpp_intro.Connection.Reader.Payloads.{single_value_arrives, relayed_arrives}
use networking_cpp_intro.Client.{Client, has_connection}
use networking_cpp_intro.ChatServer.{message_all, server_ping, code, message_from}
use networking_cpp_intro.ChatServer.Handlers.{sender_number_arrives}
use networking_cpp_intro.ChatClient.{ping_times, hello_from, ping_message, display, poll}

id-push : (m : Message) (v : List ℕ) → (push m v).header.id ≡ m.header.id
unfolding push
id-push m v = refl

-- The time in a ping that the server has sent back as it arrived, whatever the two buffers held, is
-- the 64-bit time of sending.
pub ping_round_trip :
    (tmp tmp' : Message) (sent now : ℕ)
    → sent < 2 ^ 64
    → display now (arrive tmp' (arrive tmp (ping_message sent))) ≡ some (ping_times sent now)
unfolding display
ping_round_trip tmp tmp' sent now fits =
    let n = length-le_bytes 8 sent in
    let (m, e) =
      single_value_arrives tmp' (code server_ping) (le_bytes 8 sent) (omega (arith, n))
        (omega (arith, n)) in
    ap (display now) (
      relayed_arrives tmp tmp' (code server_ping) (le_bytes 8 sent) (omega (arith, n))
        (omega (arith, n)))
    ∙ ground (
      arith,
      rw n at e,
      id-push (empty_message (code server_ping)) (le_bytes 8 sent),
      of_le_bytes-le_bytes 8 sent fits,
    )

display-message_from :
    (tmp : Message) (id now : ℕ)
    → id < 2 ^ 32
    → display now (arrive tmp (message_from id)) ≡ some (hello_from id)
unfolding display
display-message_from tmp id now fits =
    let (v, m, e, n) = sender_number_arrives tmp id fits in
    ground (arith, e, n, id-push (empty_message (code message_all)) (le_bytes 4 id))

-- A connected client takes the oldest message of its queue: if that is the server's message about a
-- sender, however its buffer stood, the sender's 32-bit number is printed and the message is gone.
pub hello_shows_sender :
    (tmp : Message) (id now : ℕ) (cl : Client) (rest : List OwnedMessage)
    → id < 2 ^ 32
    → has_connection cl ≡ true
    → cl.input_message_queue ≡ record { remote = none; msg = arrive tmp (message_from id) } ∷ rest
    → poll now cl ≡ some (record cl { input_message_queue = rest }, hello_from id ∷ [])
unfolding poll
hello_shows_sender tmp id now cl rest fits up q =
    ground (arith, up, q, display-message_from tmp id now fits)
