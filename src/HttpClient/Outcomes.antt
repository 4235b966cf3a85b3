-- ===== src/HttpClient/Outcomes.antt =====
-- async_http_get_client.cpp and ssl_http_get_client.cpp: how a client ends, and what it has printed.
use networking_cpp_intro.Common.{
  ℕ, ◌≡◌, refl, ◌∙◌, if◌then◌else◌, Bool, List, [], ◌∷◌, ◌++◌, Option, none, some, Text, arith,
}
use networking_cpp_intro.HttpClient.{
  Phase, resolving, connecting, writing, reading, ended, Request, message_from_server,
  closed_the_socket, error_during, Session, Completion, run, on_resolve, on_connect, on_write,
  on_read, complete, completes,
}

-- The first of some operations that fails.
abbrev pub first_failure : List Phase → List Bool → Option Phase
first_failure [] fails = none
first_failure (p ∷ phases) [] = none
first_failure (p ∷ phases) (f ∷ fails) = if f then some p else first_failure phases fails

-- What is sent if the operations before the write, and the write, succeed.
abbrev pub sent_after : Option Phase → Request → List Request
sent_after none r = r ∷ []
sent_after (some p) r = []

ended_stays : (cs : List Completion) (s : Session) → s.phase ≡ ended → completes cs s ≡ s
unfolding completes complete
ended_stays [] s h = refl
ended_stays (c ∷ cs) s h =
    let same : complete c s ≡ s = grind (arith, h) in
    ended_stays cs (complete c s) (cc (same, h)) ∙ same

-- With four completions or more the client has ended. If none of the first four fails, it has printed
-- the answer, and otherwise an error about the first that fails and nothing else; its request has
-- been sent once if the first three succeed, and otherwise not.
pub get_ends :
    (a b c d : Completion) (more : List Completion) (agent host target : Text) (version : ℕ)
    → let s = run agent host target version in
      let end_ = completes (a ∷ b ∷ c ∷ d ∷ more) s in
      let steps = resolving ∷ connecting ∷ writing ∷ [] in
      let fails = a.fails ∷ b.fails ∷ c.fails ∷ [] in
      (end_.phase ≡ ended)
      × (end_.shown ≡ (elim (first_failure (steps ++ reading ∷ []) (fails ++ d.fails ∷ [])) [
        | none ↦ message_from_server d.answer ∷ closed_the_socket ∷ []
        | some p ↦ error_during p ∷ []
      ]))
      × (end_.written ≡ sent_after (first_failure steps fails) s.request_)
unfolding completes complete on_resolve on_connect on_write on_read
get_ends a b c d more agent host target version =
    let s = run agent host target version in
    let t = complete d (complete c (complete b (complete a s))) in
    let ends : t.phase ≡ ended = ground arith in
    let stays = ended_stays more t ends in
    (ground (arith, stays), ground (arith, stays), ground (arith, stays))
