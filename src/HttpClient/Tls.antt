-- ===== src/HttpClient/Tls.antt =====
-- other_ressources/boost_beast/src/ssl_http_get_client.cpp: the client over TLS, with a handshake before the
-- request and a shutdown behind the answer.
use networking_cpp_intro.Common.{ℕ, if◌then◌else◌, Bool, true, false, List, [], ◌∷◌, ◌++◌, Text}
use networking_cpp_intro.HttpClient.{
  resolving, connecting, handshaking, writing, reading, shutting_down, ended, message_from_server,
  error_on_run, Session, stop,
}

-- The error code of an operation.
pub data Code : Type 0 where
  success eof failure : Code

abbrev pub is_error : Code → Bool
is_error success = false
is_error eof = true
is_error failure = true

pub record Completion : Type 0 where
  pub code : Code
  pub answer : Text

-- `run`: nothing is started if the host name cannot be set.
unfoldable pub run : Bool → Text → Text → Text → ℕ → Session
run sni_fails agent host target version =
    let s : Session = record {
      request_ = record { version = version; target = target; host = host; user_agent = agent };
      phase = resolving;
      written = [];
      shown = [];
    } in
    if sni_fails then record s { phase = ended; shown = error_on_run ∷ [] } else s

unfoldable pub on_resolve : Code → Session → Session
on_resolve ec s = if is_error ec then stop resolving s else record s { phase = connecting }

unfoldable pub on_connect : Code → Session → Session
on_connect ec s = if is_error ec then stop connecting s else record s { phase = handshaking }

unfoldable pub on_handshake : Code → Session → Session
on_handshake ec s = if is_error ec then stop handshaking s else record s { phase = writing }

unfoldable pub on_write : Code → Session → Session
on_write ec s =
    if is_error ec
    then stop writing s
    else record s { phase = reading; written = s.written ++ s.request_ ∷ [] }

unfoldable pub on_read : Code → Text → Session → Session
on_read ec answer s =
    if is_error ec
    then stop reading s
    else record s { phase = shutting_down; shown = s.shown ++ message_from_server answer ∷ [] }

-- `fail` is called for anything but `eof`.
unfoldable pub on_shutdown : Code → Session → Session
on_shutdown eof s = record s { phase = ended }
on_shutdown success s = stop shutting_down s
on_shutdown failure s = stop shutting_down s

-- The operation in hand completes.
unfoldable pub complete : Completion → Session → Session
complete c s = elim s.phase [
  | resolving ↦ on_resolve c.code s
  | connecting ↦ on_connect c.code s
  | handshaking ↦ on_handshake c.code s
  | writing ↦ on_write c.code s
  | reading ↦ on_read c.code c.answer s
  | shutting_down ↦ on_shutdown c.code s
  | ended ↦ s
]

unfoldable pub completes : List Completion → Session → Session
completes [] s = s
completes (c ∷ more) s = completes more (complete c s)
