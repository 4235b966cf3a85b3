-- ===== src/SslServer/Tests.antt =====
-- Runs of the server over TLS.
use networking_cpp_intro.Common.{refl, Bool, true, false, Text, codes, text_eq}
use networking_cpp_intro.HttpServer.{Request, Response, Opened, opened, no_such_file, get}
use networking_cpp_intro.HttpServer.Sessions
use networking_cpp_intro.HttpServer.Sessions.{received}
use networking_cpp_intro.SslServer.{handle_request}
use networking_cpp_intro.SslServer.Sessions.{
  here, next, running, handshake_done, read_done, write_done, on_handshake, on_read, on_write,
}
use networking_cpp_intro.SslServer.Refine.{plain, tls_refines_plain}

-- Every file is there, and none is.
abbrev files : Text → Opened
files path = opened 10

abbrev no_files : Text → Opened
no_files path = no_such_file

abbrev asked : Request
asked = record { method = get; target = codes "/a.txt"; version = 11; keep_alive = true }

abbrev answer : Request → Response
answer req = handle_request text_eq files (codes "gone") 0 (codes "w") req

abbrev never : Response → Bool
never response = false

-- A handshake, a request and its answer.
tls_refines_plain_example : Sessions.Reach answer never Sessions.running (
    plain (
      on_write false false
        (answer asked)
        (on_read answer (received asked) (on_handshake false running))))
unfolding on_read on_handshake
tls_refines_plain_example = tls_refines_plain answer never (
    next (next (next here (handshake_done false refl)) (read_done (received asked) refl))
      (write_done false (answer asked) refl))
