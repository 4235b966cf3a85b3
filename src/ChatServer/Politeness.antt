-- ===== src/ChatServer/Politeness.antt =====
-- custom_server.cpp: the overridden methods only send messages.
use networking_cpp_intro.Common.{
  ℕ, ◌==◌, refl, if◌then◌else◌, Bool, true, false, Option, none, some,
}
use networking_cpp_intro.Message.{Message, empty_message}
use networking_cpp_intro.Connection.{Connection, send_data}
use networking_cpp_intro.Server.{Server, at, connection_at, send_message_to_all_clients}
use networking_cpp_intro.Server.Sending.{
  Sends, nothing, sent, IsPolite, send_message_to_all_clients-Sends,
}
use networking_cpp_intro.ChatServer.{
  server_accept, server_ping, message_all, code, on_client_connect, message_from, on_message,
  chat_hooks,
}

on_message-Sends :
    (client : Option ℕ) (msg : Message) (s : Server) → Sends s (on_message client msg s)
unfolding on_message
on_message-Sends client msg s =
    go (msg.header.id == code server_ping) (msg.header.id == code message_all)
      (connection_at s.store client)
  where
    go :
        (ping all : Bool) (from : Option Connection)
        → Sends s (
            if ping
            then record s { store = at client (send_data msg) s.store }
            else if all
            then elim from [
              | none ↦ s
              | some c ↦ send_message_to_all_clients (message_from c.id) client s
            ]
            else s)
    go true all from = sent client msg (nothing {t = s} refl refl) refl refl
    go false false from = nothing {t = s} refl refl
    go false true none = nothing {t = s} refl refl
    go false true (some c) = send_message_to_all_clients-Sends (message_from c.id) client s

pub chat_hooks-IsPolite : IsPolite chat_hooks
unfolding on_client_connect
chat_hooks-IsPolite = record {
  connects = λ place s.
      sent (some place) (empty_message (code server_accept)) (nothing {t = s} refl refl) refl refl;
  messages = on_message-Sends;
}
