-- ===== src/ChatServer/Accept.antt =====
-- src/custom_server.cpp on top of net_server.hpp: the connection that an accepted client gets.
use networking_cpp_intro.Common.{ℕ, ◌≡◌, refl, true, [], ◌∷◌}
use networking_cpp_intro.Message.{Message, empty_message}
use networking_cpp_intro.Connection.{
  Connection, posted_send, sending_validation, checking_validation, writing_header, server,
  send_data, make_connection, connect_to_client, on_posted_send,
}
use networking_cpp_intro.Connection.Steps.{resumed}
use networking_cpp_intro.ChatServer.{server_accept, code}

abbrev pub welcome : Message
welcome = empty_message (code server_accept)

-- The connection object after the accept handler.
abbrev pub admitted : ℕ → ℕ → ℕ → ℕ → Connection
admitted place u_id now memory =
    connect_to_client u_id (send_data welcome (make_connection server place true [] now memory))

-- The greeting is posted before the challenge is written. The posted work runs first, while the
-- write of the challenge is in flight, and starts a second write on the same socket.
pub greeting_overlaps_challenge :
    (place u_id now memory : ℕ)
    → let c = admitted place u_id now memory in
      (c.pending ≡ posted_send welcome ∷ sending_validation ∷ checking_validation ∷ [])
      × ((on_posted_send welcome
            (resumed [] (sending_validation ∷ checking_validation ∷ []) c)).pending
          ≡ sending_validation ∷ checking_validation ∷ writing_header ∷ [])
unfolding connect_to_client make_connection send_data on_posted_send
greeting_overlaps_challenge place u_id now memory = (refl, refl)
