-- ===== src/SslServer/Refine.antt =====
-- ssl_http_server.cpp implements the session of async_http_server.cpp.
use networking_cpp_intro.Common.{◌≡◌, subst, Bool, true, false, Option, none, some, arith}
use networking_cpp_intro.HttpServer.{Request, Response}
use networking_cpp_intro.HttpServer.Sessions
use networking_cpp_intro.HttpServer.Sessions.{
  ReadResult, end_of_stream, read_error, received, IsInOrder, session-IsInOrder,
}
use networking_cpp_intro.SslServer.Sessions.{
  Phase, handshaking, reading, writing, shutting_down, shut_down, Session, running, on_handshake,
  on_read, on_write, on_shutdown, handshake_done, read_done, write_done, shutdown_done, Reach, here,
  next,
}

-- The session without TLS that a phase stands for: a handshake is a read that has not begun.
abbrev pub is_reading : Phase → Bool
is_reading handshaking = true
is_reading reading = true
is_reading _ = false

abbrev pub in_flight : Phase → Option Response
in_flight (writing response) = some response
in_flight _ = none

abbrev pub is_shut : Phase → Bool
is_shut shutting_down = true
is_shut shut_down = true
is_shut _ = false

abbrev pub plain : Session → Sessions.Session
plain s = record {
  reading = is_reading s.phase;
  writing = in_flight s.phase;
  shut_down = is_shut s.phase;
  sent = s.sent;
  served = s.served;
}

module _ (handle : Request → Response) (need_eof : Response → Bool) where
  abbrev Runs : Sessions.Session → Type 0
  Runs = Sessions.Reach handle need_eof Sessions.running

  on_handshake-Runs :
      (fails : Bool) (s : Session)
      → s.phase ≡ handshaking
      → Runs (plain s)
      → Runs (plain (on_handshake fails s))
  unfolding on_handshake Sessions.on_read
  on_handshake-Runs true s p r =
      let ends : Sessions.on_read handle read_error (plain s) ≡ plain (on_handshake true s) =
        ground arith in
      subst Runs ends (Sessions.next r (Sessions.read_done read_error (ground arith)))
  on_handshake-Runs false s p r =
      let same : plain s ≡ plain (on_handshake false s) = ground arith in subst Runs same r

  on_read-Runs :
      (result : ReadResult) (s : Session)
      → s.phase ≡ reading
      → Runs (plain s)
      → Runs (plain (on_read handle result s))
  unfolding on_read Sessions.on_read
  on_read-Runs result s p r =
      let ends : Sessions.on_read handle result (plain s) ≡ plain (on_read handle result s) =
        ground arith in
      subst Runs ends (Sessions.next r (Sessions.read_done result (ground arith)))

  on_write-Runs :
      (fails : Bool) (response : Response) (s : Session)
      → s.phase ≡ writing response
      → Runs (plain s)
      → Runs (plain (on_write (need_eof response) fails response s))
  unfolding on_write Sessions.on_write
  on_write-Runs fails response s p r =
      let ends : Sessions.on_write (need_eof response) fails response (plain s)
          ≡ plain (on_write (need_eof response) fails response s) =
        ground arith in
      subst Runs ends (Sessions.next r (Sessions.write_done fails response (ground arith)))

  on_shutdown-Runs :
      (fails : Bool) (s : Session)
      → s.phase ≡ shutting_down
      → Runs (plain s)
      → Runs (plain (on_shutdown fails s))
  unfolding on_shutdown
  on_shutdown-Runs fails s p r =
      let same : plain s ≡ plain (on_shutdown fails s) = ground arith in subst Runs same r

  -- Every history of a session over TLS, its handshake and its shutdown left out, is a history of the
  -- session without TLS.
  pub tls_refines_plain : {s : Session} → Reach handle need_eof running s → Runs (plain s)
  tls_refines_plain here = Sessions.here
  tls_refines_plain (next {t} r (handshake_done fails p)) =
      on_handshake-Runs fails t p (tls_refines_plain r)
  tls_refines_plain (next {t} r (read_done result p)) =
      on_read-Runs result t p (tls_refines_plain r)
  tls_refines_plain (next {t} r (write_done fails a p)) =
      on_write-Runs fails a t p (tls_refines_plain r)
  tls_refines_plain (next {t} r (shutdown_done fails p)) =
      on_shutdown-Runs fails t p (tls_refines_plain r)

  -- So its answers, too, are those of the requests read, in their order.
  pub tls-IsInOrder :
      {s : Session} → Reach handle need_eof running s → IsInOrder handle need_eof (plain s)
  tls-IsInOrder r = session-IsInOrder handle need_eof (tls_refines_plain r)
