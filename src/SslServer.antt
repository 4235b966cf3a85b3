-- ===== src/SslServer.antt =====
-- other_ressources/boost_beast/src/ssl_http_server.cpp: the server over TLS. `iequals`, the opening of
-- files and the size of a body that is not open are parameters.
pub mod Errors
pub mod Sessions
pub mod Refine
pub mod Listening
mod Tests
use networking_cpp_intro.Common.{
  ℕ, if◌then◌else◌, Bool, not, ◌&&◌, List, [], ◌∷◌, ◌++◌, some, Text, codes, length,
}
use networking_cpp_intro.HttpServer
use networking_cpp_intro.HttpServer.{
  Request, Response, Status, Opened, no_such_file, open_error, opened, ok, bad_request,
  internal_server_error, Body, string_body, empty_body, file_body, get, head, other_verb, is_known,
  has_dots, starts_with_slash, ends_in_slash, without_last, index_html, extension, first_match,
  extensions,
}

-- On a UNIX host.
abbrev pub path_cat : Text → Text → Text
path_cat [] path = path
path_cat (x ∷ base) path =
    if ends_in_slash (x ∷ base) then without_last (x ∷ base) ++ path else (x ∷ base) ++ path

-- The table of async_http_server.cpp, line by line.
unfoldable pub mime_type : (Text → Text → Bool) → Text → Text
unfolding first_match extensions
mime_type iequals path = first_match (iequals (extension path)) extensions

-- The lambdas for errors. `not_found` is declared in the source and never called.
abbrev pub error_response : Request → Status → Text → Response
error_response req status text = record {
  status = status;
  version = req.version;
  content_type = codes "text/html";
  content_length = some (length text);
  keep_alive = req.keep_alive;
  body = string_body text;
}

abbrev pub requested_path : Text → Text → Text
requested_path doc_root target =
    if ends_in_slash target
    then path_cat doc_root target ++ index_html
    else path_cat doc_root target

-- An answer with a file, or without it to HEAD.
abbrev pub file_response : (Text → Text → Bool) → Request → Text → ℕ → Response
file_response iequals req path size = record {
  status = ok;
  version = req.version;
  content_type = mime_type iequals path;
  content_length = some size;
  keep_alive = req.keep_alive;
  body = elim req.method [ head ↦ empty_body | get ↦ file_body path | other_verb ↦ file_body path ];
}

-- Only the error "no such file" is looked at; the strerror text of it is `missing`.
unfoldable pub handle_request :
    (Text → Text → Bool) → (Text → Opened) → Text → ℕ → Text → Request → Response
handle_request iequals open_file missing closed_size doc_root req =
    if not (is_known req.method)
    then error_response req bad_request (codes "Unsupported HTTP-method")
    else if not (starts_with_slash req.target && not (has_dots req.target))
    then error_response req bad_request (codes "Illegal request-target")
    else let path = requested_path doc_root req.target in
      elim (open_file path) [
        | no_such_file ↦
            error_response req internal_server_error
              (codes "An error occurred: '" ++ (missing ++ codes "'"))
        | open_error what ↦ file_response iequals req path closed_size
        | opened size ↦ file_response iequals req path size
      ]
