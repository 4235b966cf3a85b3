-- ===== src/HttpClient/Tests.antt =====
-- Runs of the clients.
use networking_cpp_intro.Common.{◌≡◌, true, false, [], ◌∷◌, codes}
use networking_cpp_intro.HttpClient.{
  Completion, Session, ended, connecting, error_during, run, completes,
}
use networking_cpp_intro.HttpClient.Outcomes.{get_ends}

abbrev done : Completion
done = record { fails = false; answer = codes "hello" }

abbrev failed : Completion
failed = record { fails = true; answer = [] }

-- The connection fails.
abbrev refused : Session
refused =
    completes (done ∷ failed ∷ done ∷ done ∷ done ∷ [])
      (run (codes "agent") (codes "host") (codes "/") 11)

get_ends_example :
    (refused.phase ≡ ended)
    × (refused.shown ≡ error_during connecting ∷ [])
    × (refused.written ≡ [])
get_ends_example =
    get_ends done failed done done (done ∷ []) (codes "agent") (codes "host") (codes "/") 11
