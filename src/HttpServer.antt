-- ===== src/HttpServer.antt =====
-- other_ressources/boost_beast/src/async_http_server.cpp: the answer to a request, and the session that
-- reads requests and writes the answers. A string is the list of its characters' codes.
-- `iequals` of Boost.Beast and the opening of files are parameters.
pub mod Paths
pub mod Answers
pub mod Sessions
pub mod Program
pub mod Listening
mod Tests
use networking_cpp_intro.Common.{
  ℕ, ◌+◌, ◌==◌, if◌then◌else◌, Bool, true, false, not, ◌&&◌, ◌||◌, List, [], ◌∷◌, ◌++◌, Option,
  none, some, Text, codes, length,
}

-- `'.'` and `'/'`
abbrev pub dot : ℕ
dot = b'.'

abbrev pub slash : ℕ
slash = b'/'

-- `path.substr(path.rfind("."))`, empty without a dot.
abbrev pub extension : Text → Text
extension [] = []
extension (x ∷ path) = elim (extension path) [
  | [] ↦ if x == dot then x ∷ path else []
  | y ∷ ext ↦ y ∷ ext
]

unfoldable pub extensions : List (Text × Text)
extensions =
    (codes ".htm", codes "text/html")
    ∷ (codes ".html", codes "text/html")
    ∷ (codes ".php", codes "text/html")
    ∷ (codes ".css", codes "text/css")
    ∷ (codes ".txt", codes "text/plain")
    ∷ (codes ".js", codes "application/javascript")
    ∷ (codes ".json", codes "application/json")
    ∷ (codes ".xml", codes "application/xml")
    ∷ (codes ".swf", codes "application/x-shockwave-flash")
    ∷ (codes ".flv", codes "video/x-flv")
    ∷ (codes ".png", codes "image/png")
    ∷ (codes ".jpe", codes "image/jpeg")
    ∷ (codes ".jpeg", codes "image/jpeg")
    ∷ (codes ".jpg", codes "image/jpeg")
    ∷ (codes ".gif", codes "image/gif")
    ∷ (codes ".bmp", codes "image/bmp")
    ∷ (codes ".ico", codes "image/vnd.microsoft.icon")
    ∷ (codes ".tiff", codes "image/tiff")
    ∷ (codes ".tif", codes "image/tiff")
    ∷ (codes ".svg", codes "image/svg+xml")
    ∷ (codes ".svgz", codes "image/svg+xml")
    ∷ []

-- The first entry that `matches` decides the type.
unfoldable pub first_match : (Text → Bool) → List (Text × Text) → Text
first_match matches [] = codes "application/text"
first_match matches ((ext, type) ∷ rest) = if matches ext then type else first_match matches rest

unfoldable pub mime_type : (Text → Text → Bool) → Text → Text
unfolding first_match extensions
mime_type iequals path = first_match (iequals (extension path)) extensions

-- Whether `back()` is a slash; of an empty string it is not asked.
abbrev pub ends_in_slash : Text → Bool
ends_in_slash [] = false
ends_in_slash (x ∷ []) = x == slash
ends_in_slash (x ∷ y ∷ rest) = ends_in_slash (y ∷ rest)

-- `result.resize(result.size() - 1)`
abbrev pub without_last : Text → Text
without_last [] = []
without_last (x ∷ []) = []
without_last (x ∷ y ∷ rest) = x ∷ without_last (y ∷ rest)

-- On a UNIX host.
abbrev pub path_cat : Text → Text → Text
path_cat base path = if ends_in_slash base then without_last base ++ path else base ++ path

-- `find("..") != npos`
abbrev pub has_dots : Text → Bool
has_dots [] = false
has_dots (x ∷ []) = false
has_dots (x ∷ y ∷ rest) = (x == dot && y == dot) || has_dots (y ∷ rest)

abbrev pub starts_with_slash : Text → Bool
starts_with_slash [] = false
starts_with_slash (x ∷ rest) = x == slash

abbrev pub index_html : Text
index_html = codes "index.html"

pub data Verb : Type 0 where
  get head other_verb : Verb

pub record Request : Type 0 where
  pub method : Verb
  pub target : Text
  pub version : ℕ
  pub keep_alive : Bool

-- What `body.open` gives: two kinds of error, or the size of the file.
pub data Opened : Type 0 where
  no_such_file : Opened
  open_error : Text → Opened
  opened : ℕ → Opened

pub data Status : Type 0 where
  ok bad_request not_found internal_server_error : Status

-- A string body, none, or the file at a path.
pub data Body : Type 0 where
  string_body : Text → Body
  empty_body : Body
  file_body : Text → Body

-- The `Server` field, which is constant, is left out. `content_length` is none where nothing sets it.
pub record Response : Type 0 where
  pub status : Status
  pub version : ℕ
  pub content_type : Text
  pub content_length : Option ℕ
  pub keep_alive : Bool
  pub body : Body

-- The answer of the three lambdas for errors; `prepare_payload` sets the length.
abbrev pub error_response : Request → Status → Text → Response
error_response req status why = record {
  status = status;
  version = req.version;
  content_type = codes "text/html";
  content_length = some (length why);
  keep_alive = req.keep_alive;
  body = string_body why;
}

abbrev pub bad_request_response : Request → Text → Response
bad_request_response req why = error_response req bad_request why

abbrev pub not_found_response : Request → Text → Response
not_found_response req target =
    error_response req not_found (codes "The resource '" ++ (target ++ codes "' was not found."))

abbrev pub server_error_response : Request → Text → Response
server_error_response req what =
    error_response req internal_server_error (codes "An error occurred: '" ++ (what ++ codes "'"))

abbrev pub file_response : Request → Text → ℕ → Body → Response
file_response req type size body = record {
  status = ok;
  version = req.version;
  content_type = type;
  content_length = some size;
  keep_alive = req.keep_alive;
  body = body;
}

-- The path of the file that is asked for.
abbrev pub requested_path : Text → Text → Text
requested_path doc_root target =
    if ends_in_slash target
    then path_cat doc_root target ++ index_html
    else path_cat doc_root target

abbrev pub is_known : Verb → Bool
is_known other_verb = false
is_known _ = true

abbrev pub is_legal : Text → Bool
is_legal target = starts_with_slash target && not (has_dots target)

unfoldable pub handle_request : (Text → Text → Bool) → (Text → Opened) → Text → Request → Response
handle_request iequals open_file doc_root req =
    if not (is_known req.method)
    then bad_request_response req (codes "Unknown HTTP-method")
    else if not (is_legal req.target)
    then bad_request_response req (codes "Illegal request-target")
    else let path = requested_path doc_root req.target in
      elim (open_file path) [
        | no_such_file ↦ not_found_response req req.target
        | open_error what ↦ server_error_response req what
        | opened size ↦ file_response req (mime_type iequals path) size (elim req.method [
          | head ↦ empty_body
          | get ↦ file_body path
          | other_verb ↦ file_body path
        ])
      ]
