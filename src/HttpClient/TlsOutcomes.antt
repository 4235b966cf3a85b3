-- ===== src/HttpClient/TlsOutcomes.antt =====
-- ssl_http_get_client.cpp: how the client over TLS ends, and what it has printed.
use networking_cpp_intro.Common.{
  ℕ, ◌≡◌, ◌∙◌, refl, Bool, false, List, [], ◌∷◌, ◌++◌, none, some, Text, arith, map,
}
use networking_cpp_intro.HttpClient.{
  resolving, connecting, handshaking, writing, reading, shutting_down, ended, Line,
  message_from_server, error_during, Session,
}
use networking_cpp_intro.HttpClient.Outcomes.{first_failure, sent_after}
use networking_cpp_intro.HttpClient.Tls.{
  Code, success, eof, failure, is_error, Completion, run, on_resolve, on_connect, on_handshake,
  on_write, on_read, on_shutdown, complete, completes,
}

ended_for_good : (cs : List Completion) (s : Session) → s.phase ≡ ended → completes cs s ≡ s
unfolding completes complete
ended_for_good [] s h = refl
ended_for_good (c ∷ cs) s h =
    let same : complete c s ≡ s = grind (arith, h) in
    ended_for_good cs (complete c s) (cc (same, h)) ∙ same

-- What the shutdown prints.
abbrev pub shutdown_lines : Code → List Line
shutdown_lines eof = []
shutdown_lines success = error_during shutting_down ∷ []
shutdown_lines failure = error_during shutting_down ∷ []

abbrev pub errors : List Completion → List Bool
errors cs = map (λ c. is_error c.code) cs

-- If the host name can be set, then with six completions or more the client over TLS has ended. If none
-- of the first five fails, it has printed the answer, and behind it an error about the shutdown
-- unless that ended with `eof`, so also after a shutdown without any error; otherwise it has printed an
-- error about the first that fails and nothing else. Its request has been sent once if the first
-- four succeed, the handshake among them, and otherwise not.
pub tls_get_ends :
    (a b c d e f : Completion) (more : List Completion) (agent host target : Text) (version : ℕ)
    → let s = run false agent host target version in
      let end_ = completes (a ∷ b ∷ c ∷ d ∷ e ∷ f ∷ more) s in
      let steps = resolving ∷ connecting ∷ handshaking ∷ writing ∷ [] in
      let fails = errors (a ∷ b ∷ c ∷ d ∷ []) in
      (end_.phase ≡ ended)
      × (end_.shown
          ≡ (elim (first_failure (steps ++ reading ∷ []) (fails ++ is_error e.code ∷ [])) [
            | none ↦ message_from_server e.answer ∷ shutdown_lines f.code
            | some p ↦ error_during p ∷ []
          ]))
      × (end_.written ≡ sent_after (first_failure steps fails) s.request_)
unfolding run completes complete on_resolve on_connect on_handshake on_write on_read on_shutdown
tls_get_ends a b c d e f more agent host target version =
    let s = run false agent host target version in
    let t = complete f (complete e (complete d (complete c (complete b (complete a s))))) in
    let ends : t.phase ≡ ended = ground arith in
    let stays = ended_for_good more t ends in
    (ground (arith, stays), ground (arith, stays), ground (arith, stays))
