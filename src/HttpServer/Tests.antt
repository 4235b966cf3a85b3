-- ===== src/HttpServer/Tests.antt =====
-- Runs of the HTTP server.
use networking_cpp_intro.Common.{ℕ, ◌≡◌, codes, refl, text_eq, Text, true, false}
use networking_cpp_intro.HttpServer.{
  Request, Response, Opened, opened, no_such_file, get, handle_request, requested_path, mime_type,
  ok,
}
use networking_cpp_intro.HttpServer.Paths.{IsBelow, ok-IsBelow}
use networking_cpp_intro.HttpServer.Sessions.{
  running, received, on_read, on_write, here, next, read_done, write_done, IsInOrder,
  session-IsInOrder,
}

-- The root ends in a slash.
abbrev picture : Text
picture = codes "/a.png"

abbrev root : Text
root = codes "w/"

files : Text → Opened
unfolding text_eq
files path = elim (text_eq path (codes "w/a.png")) [ true ↦ opened 10 | false ↦ no_such_file ]

abbrev request : Request
request = record { method = get; target = picture; version = 11; keep_alive = true }

types :
    (mime_type text_eq picture ≡ codes "image/png")
    × (mime_type text_eq root ≡ codes "application/text")
unfolding mime_type text_eq
types = (refl, refl)

found : (handle_request text_eq files root request).status ≡ ok
unfolding handle_request files
found = refl

ok-IsBelow_example :
    IsBelow root (requested_path root picture)
    × ((size : ℕ) × (files (requested_path root picture) ≡ opened size))
ok-IsBelow_example = ok-IsBelow text_eq files root request found

abbrev answer : Request → Response
answer req = handle_request text_eq files root req

session-IsInOrder_example :
    IsInOrder answer
      (λ r. false)
      (on_write false false (answer request) (on_read answer (received request) running))
unfolding on_read
session-IsInOrder_example =
    session-IsInOrder answer (λ r. false)
      (next (next here (read_done (received request) refl))
        (write_done false (answer request) refl))
