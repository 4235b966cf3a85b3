-- ===== src/ChatServer.antt =====
-- src/custom_server.cpp: `CustomServerLogic`, the server of the chat application.
pub mod Handlers
pub mod Accept
pub mod Numbers
pub mod Politeness
pub mod Program
mod Tests
use networking_cpp_intro.Common.{ℕ, ◌==◌, if◌then◌else◌, Bool, true, Option, none, some, le_bytes}
use networking_cpp_intro.Message.{Message, empty_message, push}
use networking_cpp_intro.Connection.{Connection, send_data}
use networking_cpp_intro.Server.{Server, Hooks, at, connection_at, send_message_to_all_clients}

-- `CustomMsgTypes`
pub data CustomMsgTypes : Type 0 where
  server_accept server_deny server_ping message_all server_message : CustomMsgTypes

-- The value of an enumerator.
abbrev pub code : CustomMsgTypes → ℕ
code server_accept = 0
code server_deny = 1
code server_ping = 2
code message_all = 3
code server_message = 4

-- Every connection is welcome, and is sent a bare message that says so.
pub on_client_connect : ℕ → Server → Server × Bool
on_client_connect client s = (
  record s { store = at (some client) (send_data (empty_message (code server_accept))) s.store },
  true,
)

-- `msg << client->getID()`
abbrev pub message_from : ℕ → Message
message_from id = push (empty_message (code message_all)) (le_bytes 4 id)

-- A pointer to no object gives undefined behaviour, and is not met: `remote` is the connection that
-- the message came through. Here it changes nothing.
pub on_message : Option ℕ → Message → Server → Server
on_message client msg s =
    if msg.header.id == code server_ping
    then record s { store = at client (send_data msg) s.store }
    else if msg.header.id == code message_all
    then elim (connection_at s.store client) [
      | none ↦ s
      | some c ↦ send_message_to_all_clients (message_from c.id) client s
    ]
    else s

abbrev pub chat_hooks : Hooks
chat_hooks = record { on_client_connect = on_client_connect; on_message = on_message }
