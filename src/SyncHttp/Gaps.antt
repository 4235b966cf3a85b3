-- ===== src/SyncHttp/Gaps.antt =====
-- simple_http_server.cpp: where the synchronous server answers as async_http_server.cpp does, and where
-- it does not.
use networking_cpp_intro.Common.{
  ℕ, ◌≡◌, refl, Bool, true, false, List, [], ◌∷◌, some, Text, codes, arith,
}
use networking_cpp_intro.HttpServer
use networking_cpp_intro.SyncHttp
use networking_cpp_intro.HttpServer.{
  Request, Response, Opened, opened, get, other_verb, is_legal, mime_type, ok, bad_request,
  requested_path, ends_in_slash,
}
use networking_cpp_intro.HttpServer.Sessions.{ReadResult, received, read_error}
use networking_cpp_intro.SyncHttp.{handle_request, do_session, after, bad_request_response}

-- The same status line and connection, and the same body and length where the status is 200. The content
-- type is left out.
abbrev pub Agrees : Response → Response → Type 0
Agrees a b =
    (a.status ≡ b.status)
    × (a.version ≡ b.version)
    × (a.keep_alive ≡ b.keep_alive)
    × (a.status ≡ ok → (a.body ≡ b.body) × (a.content_length ≡ b.content_length))

path_cat-eq : (base path : Text) → SyncHttp.path_cat base path ≡ HttpServer.path_cat base path
path_cat-eq [] path = refl
path_cat-eq (x ∷ base) path = ground arith

requested_path-eq :
    (base target : Text) → SyncHttp.requested_path base target ≡ requested_path base target
requested_path-eq base target = ground (arith, path_cat-eq base target)

-- Whatever its function `mime_type` is: what the synchronous server sends agrees with what the
-- asynchronous one answers to the same request in status, version and keep-alive, and where the status is
-- 200 also in body and length.
pub sent-Agrees :
    (mime : Text → Text) (iequals : Text → Text → Bool) (open_file : Text → Opened)
    (doc_root : Text) (req : Request) (response : Response)
    → handle_request mime open_file doc_root req ≡ some response
    → Agrees response (HttpServer.handle_request iequals open_file doc_root req)
unfolding handle_request HttpServer.handle_request
sent-Agrees mime iequals open_file doc_root req response h =
    ground (arith, requested_path-eq doc_root req.target)

-- A GET for a file that can be opened is not answered: the session sends nothing for it, and reads the
-- next request.
pub get_unanswered :
    (need_eof : Response → Bool) (mime : Text → Text) (open_file : Text → Opened) (doc_root : Text)
    (req blank : Request) (size : ℕ) (fails : Bool) (rounds : List (ReadResult × Bool))
    → req.method ≡ get
    → is_legal req.target ≡ true
    → open_file (requested_path doc_root req.target) ≡ opened size
    → do_session need_eof
        (handle_request mime open_file doc_root)
        blank
        ((received req, fails) ∷ rounds)
      ≡ do_session need_eof (handle_request mime open_file doc_root) blank rounds
unfolding handle_request do_session
get_unanswered need_eof mime open_file doc_root req blank size fails rounds g l o =
    ground (arith, requested_path-eq doc_root req.target)

-- A failed read is not noticed where the write of the same round succeeds: with a request of unknown
-- method for what the read leaves, the client is sent a bad request, and the loop goes on.
pub read_error_masked :
    (need_eof : Response → Bool) (mime : Text → Text) (open_file : Text → Opened) (doc_root : Text)
    (blank : Request) (rounds : List (ReadResult × Bool))
    → blank.method ≡ other_verb
    → need_eof (bad_request_response blank (codes "Unknown HTTP-method")) ≡ false
    → do_session need_eof
        (handle_request mime open_file doc_root)
        blank
        ((read_error, false) ∷ rounds)
      ≡ after
          (bad_request_response blank (codes "Unknown HTTP-method"))
          (do_session need_eof (handle_request mime open_file doc_root) blank rounds)
unfolding handle_request do_session
read_error_masked need_eof mime open_file doc_root blank rounds m k = ground arith
