-- ===== src/SyncHttp.antt =====
-- other_ressources/boost_beast/src/simple_http_server.cpp: the synchronous server. `mime_type`, which
-- the file calls and does not declare, is a parameter, as are the opening of files and, of
-- Boost.Beast, `need_eof` and the request that an unsuccessful read leaves.
pub mod Gaps
pub mod Program
mod Tests
use networking_cpp_intro.Common.{
  ℕ, if◌then◌else◌, Bool, true, false, not, List, [], ◌∷◌, ◌++◌, Option, none, some, Text, codes,
  length,
}
use networking_cpp_intro.HttpServer.{
  Request, Response, Status, Body, Opened, no_such_file, open_error, opened, ok, bad_request,
  not_found, internal_server_error, string_body, empty_body, get, head, other_verb, is_known,
  is_legal, ends_in_slash, without_last, index_html,
}
use networking_cpp_intro.HttpServer.Sessions.{ReadResult, end_of_stream, read_error, received}

-- On a UNIX host.
abbrev pub path_cat : Text → Text → Text
path_cat [] path = path
path_cat (x ∷ base) path =
    (if ends_in_slash (x ∷ base) then without_last (x ∷ base) else x ∷ base) ++ path

-- A text answer; where `prepare_payload` is called it sets the length.
abbrev text_response : Request → Status → Text → Option ℕ → Text → Response
text_response req status type len text = record {
  status = status;
  version = req.version;
  content_type = type;
  content_length = len;
  keep_alive = req.keep_alive;
  body = string_body text;
}

abbrev pub bad_request_response : Request → Text → Response
bad_request_response req why =
    text_response req bad_request (codes "text/html") (some (length why)) why

abbrev pub not_found_response : Request → Text → Response
not_found_response req target =
    let text = codes "The ressource: '" ++ (target ++ codes "' was not found.") in
    text_response req not_found (codes "test/html") (some (length text)) text

abbrev pub server_error_response : Request → Text → Response
server_error_response req what =
    text_response req internal_server_error (codes "test/html") none
      (codes "An error occured: '" ++ (what ++ codes "'"))

abbrev pub requested_path : Text → Text → Text
requested_path doc_root target =
    if ends_in_slash target
    then path_cat doc_root target ++ index_html
    else path_cat doc_root target

-- `none`: the function returns without a call of `send`.
unfoldable pub handle_request : (Text → Text) → (Text → Opened) → Text → Request → Option Response
handle_request mime_type open_file doc_root req =
    if not (is_known req.method)
    then some (bad_request_response req (codes "Unknown HTTP-method"))
    else if not (is_legal req.target)
    then some (bad_request_response req (codes "Illegal request-target"))
    else let path = requested_path doc_root req.target in
      elim (open_file path) [
        | no_such_file ↦ some (not_found_response req req.target)
        | open_error what ↦ some (server_error_response req what)
        | opened size ↦ elim req.method [
          | head ↦ some (record {
            status = ok;
            version = req.version;
            content_type = mime_type path;
            content_length = some size;
            keep_alive = req.keep_alive;
            body = empty_body;
          })
          | get ↦ none
          | other_verb ↦ none
        ]
      ]

-- How the loop of `do_session` ends; `waiting` is a read that has not returned.
pub data Ending : Type 0 where
  shut_down write_failed waiting : Ending

pub record Outcome : Type 0 where
  pub sent : List Response
  pub ending : Ending

abbrev stop : Ending → Outcome
stop e = record { sent = []; ending = e }

abbrev pub after : Response → Outcome → Outcome
after response o = record { sent = response ∷ o.sent; ending = o.ending }

module _ (need_eof : Response → Bool) where
  -- The body of the loop behind `read`: `send` writes and overwrites `ec`; without a call of it
  -- `ec` is the read's. `rest` is what the further rounds give.
  abbrev pub respond : Option Response → Bool → Bool → Outcome → Outcome
  respond none read_failed write_fails rest = if read_failed then stop write_failed else rest
  respond (some response) read_failed write_fails rest =
      if write_fails
      then stop write_failed
      else if need_eof response
      then after response (stop shut_down)
      else after response rest

  -- What each read gives, and whether the write of the same round fails.
  unfoldable pub do_session :
      (Request → Option Response) → Request → List (ReadResult × Bool) → Outcome
  do_session handle blank [] = stop waiting
  do_session handle blank ((end_of_stream, fails) ∷ rounds) = stop shut_down
  do_session handle blank ((read_error, fails) ∷ rounds) =
      let rest = do_session handle blank rounds in respond (handle blank) true fails rest
  do_session handle blank ((received req, fails) ∷ rounds) =
      let rest = do_session handle blank rounds in respond (handle req) false fails rest
