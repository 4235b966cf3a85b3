-- ===== src/SyncHttp/Tests.antt =====
-- Runs of the synchronous server.
use networking_cpp_intro.Common.{◌≡◌, refl, Bool, true, false, [], some, Text, codes, text_eq}
use networking_cpp_intro.HttpServer
use networking_cpp_intro.HttpServer.{
  Request, Response, Opened, opened, get, head, other_verb, is_legal, requested_path,
}
use networking_cpp_intro.SyncHttp.{handle_request}
use networking_cpp_intro.SyncHttp.Gaps.{Agrees, sent-Agrees}

-- Every file is there.
abbrev files : Text → Opened
files path = opened 10

abbrev plain_text : Text → Text
plain_text path = codes "text/plain"

abbrev asked : Request
asked = record { method = head; target = codes "/a.txt"; version = 11; keep_alive = true }

abbrev blank : Request
blank = record { method = other_verb; target = []; version = 11; keep_alive = true }

abbrev never : Response → Bool
never response = false

head_sent :
    (response : Response) × (handle_request plain_text files (codes "w") asked ≡ some response)
unfolding handle_request
head_sent = (_, refl)

sent-Agrees_example : Agrees head_sent.0 (HttpServer.handle_request text_eq files (codes "w") asked)
sent-Agrees_example = sent-Agrees plain_text text_eq files (codes "w") asked head_sent.0 head_sent.1
