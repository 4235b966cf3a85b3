-- ===== src/SslServer/Errors.antt =====
-- ssl_http_server.cpp beside async_http_server.cpp: the same answers for files that can be opened, others
-- for files that cannot.
use networking_cpp_intro.Common.{ℕ, ◌≡◌, refl, Bool, true, [], ◌∷◌, Text, arith}
use networking_cpp_intro.HttpServer
use networking_cpp_intro.HttpServer.{
  Request, Response, Opened, opened, no_such_file, open_error, is_known, is_legal, ok, not_found,
  internal_server_error, get, head, other_verb, file_response,
}
use networking_cpp_intro.SslServer
use networking_cpp_intro.SslServer.{handle_request, requested_path}

path_cat-eq : (base path : Text) → SslServer.path_cat base path ≡ HttpServer.path_cat base path
path_cat-eq [] path = refl
path_cat-eq (x ∷ base) path = ground arith

requested_path-eq :
    (base target : Text) → requested_path base target ≡ HttpServer.requested_path base target
requested_path-eq base target = ground (arith, path_cat-eq base target)

mime_type-eq :
    (iequals : Text → Text → Bool) (path : Text)
    → SslServer.mime_type iequals path ≡ HttpServer.mime_type iequals path
unfolding SslServer.mime_type HttpServer.mime_type
mime_type-eq iequals path = refl

-- A legal GET or HEAD for a file that opens gets the answer of the server without TLS, field for field.
pub opened_alike :
    (iequals : Text → Text → Bool) (open_file : Text → Opened) (missing doc_root : Text)
    (closed size : ℕ) (req : Request)
    → is_known req.method ≡ true
    → is_legal req.target ≡ true
    → open_file (requested_path doc_root req.target) ≡ opened size
    → handle_request iequals open_file missing closed doc_root req
      ≡ HttpServer.handle_request iequals open_file doc_root req
unfolding handle_request HttpServer.handle_request
opened_alike iequals open_file missing doc_root closed size req k l o = ground (
  arith,
  requested_path-eq doc_root req.target,
  mime_type-eq iequals (requested_path doc_root req.target),
)

-- For a legal GET or HEAD the errors of opening the file are misreported: a missing file gives the
-- status 500 where the server without TLS gives 404, and a file that cannot be opened for another
-- reason gives 200 where that server gives 500.
pub errors_misreported :
    (iequals : Text → Text → Bool) (open_file : Text → Opened) (missing doc_root what : Text)
    (closed : ℕ) (req : Request)
    → is_known req.method ≡ true
    → is_legal req.target ≡ true
    → let path = requested_path doc_root req.target in
      let tls = handle_request iequals open_file missing closed doc_root req in
      let plain = HttpServer.handle_request iequals open_file doc_root req in
      (open_file path ≡ no_such_file
        → (tls.status ≡ internal_server_error) × (plain.status ≡ not_found))
      × (open_file path ≡ open_error what
          → (tls.status ≡ ok) × (plain.status ≡ internal_server_error))
unfolding handle_request HttpServer.handle_request
errors_misreported iequals open_file missing doc_root what closed req k l = (
  λ o. ground (arith, requested_path-eq doc_root req.target),
  λ o. ground (arith, requested_path-eq doc_root req.target),
)
