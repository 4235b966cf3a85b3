-- ===== src/SslServer/Sessions.antt =====
-- ssl_http_server.cpp: `Session`. One operation is in hand at a time; `phase` says which. `need_eof`, of
-- Boost.Beast, is a parameter, and `handle` is `handle_request` on the session's root.
use networking_cpp_intro.Common.{◌≡◌, if◌then◌else◌, Bool, List, [], ◌∷◌, ◌++◌}
use networking_cpp_intro.HttpServer.{Request, Response}
use networking_cpp_intro.HttpServer.Sessions.{ReadResult, end_of_stream, read_error, received}

-- The asynchronous operation in hand: the TLS handshake, a read, a write, the TLS shutdown; or none,
-- after an error or after the shutdown.
pub data Phase : Type 0 where
  handshaking reading : Phase
  writing : Response → Phase
  shutting_down shut_down failed : Phase

pub record Session : Type 0 where
  pub phase : Phase
  pub sent : List Response
  pub served : List Request

-- The constructor, `run` and `on_run`.
abbrev pub running : Session
running = record { phase = handshaking; sent = []; served = [] }

abbrev pub do_read : Session → Session
do_read s = record s { phase = reading }

abbrev pub do_close : Session → Session
do_close s = record s { phase = shutting_down }

unfoldable pub on_handshake : Bool → Session → Session
on_handshake fails s = if fails then record s { phase = failed } else do_read s

-- `on_read`, with the call of `lambda_` that starts the write.
unfoldable pub on_read : (Request → Response) → ReadResult → Session → Session
on_read handle end_of_stream s = do_close s
on_read handle read_error s = record s { phase = failed }
on_read handle (received req) s = record s {
  phase = writing (handle req);
  served = s.served ++ req ∷ [];
}

unfoldable pub on_write : Bool → Bool → Response → Session → Session
on_write close fails response s =
    let done = record s { sent = s.sent ++ response ∷ [] } in
    if fails then record s { phase = failed } else if close then do_close done else do_read done

unfoldable pub on_shutdown : Bool → Session → Session
on_shutdown fails s = record s { phase = shut_down }

module _ (handle : Request → Response) (need_eof : Response → Bool) where
  pub data Step (s : Session) : Session → Type 0 where
    handshake_done : (fails : Bool) → s.phase ≡ handshaking → Step s (on_handshake fails s)
    read_done : (result : ReadResult) → s.phase ≡ reading → Step s (on_read handle result s)
    write_done :
        (fails : Bool) (response : Response)
        → s.phase ≡ writing response
        → Step s (on_write (need_eof response) fails response s)
    shutdown_done : (fails : Bool) → s.phase ≡ shutting_down → Step s (on_shutdown fails s)

  pub data Reach (s : Session) : Session → Type 0 where
    here : Reach s s
    next : {t u : Session} → Reach s t → Step t u → Reach s u
