-- ===== src/SslServer/Listening.antt =====
-- ssl_http_server.cpp: `Listener`, whose accept handler starts the next accept.
use networking_cpp_intro.Common.{
  ℕ, ◌+◌, ◌-◌, ◌==◌, ◌≡◌, if◌then◌else◌, Bool, true, false, List, [], ◌∷◌, arith,
}
use networking_cpp_intro.HttpServer.Listening.{Listener, do_accept}

-- The constructor: whether `open`, `set_option`, `bind` and `listen` fail, in this order.
unfoldable pub make_listener : Bool → Bool → Bool → Bool → Listener
make_listener open_fails option_fails bind_fails listen_fails =
    let l : Listener = record { listening = false; accepts = 0; sessions = 0 } in
    if open_fails
    then l
    else if option_fails
    then l
    else if bind_fails
    then l
    else if listen_fails
    then l
    else record l { listening = true }

unfoldable pub on_accept : Bool → Listener → Listener
on_accept fails l = do_accept (if fails then l else record l { sessions = l.sessions + 1 })

unfoldable pub run_accepts : List Bool → Listener → Listener
run_accepts [] l = l
run_accepts (fails ∷ more) l =
    if l.accepts == 0
    then l
    else run_accepts more (on_accept fails (record l { accepts = l.accepts - 1 }))

abbrev pub successes : List Bool → ℕ
successes [] = 0
successes (fails ∷ more) = if fails then successes more else successes more + 1

accepting_on :
    (attempts : List Bool) (l : Listener)
    → l.accepts ≡ 1
    → ((run_accepts attempts l).accepts ≡ 1)
      × ((run_accepts attempts l).sessions ≡ l.sessions + successes attempts)
unfolding on_accept run_accepts
accepting_on [] l h = ground arith
accepting_on (fails ∷ more) l h =
    let l' = on_accept fails (record l { accepts = 0 }) in ground (arith, accepting_on more l')

-- Through any sequence of attempts one accept is in hand, and each attempt without an error has given
-- a session.
pub keeps_accepting :
    (open_fails option_fails bind_fails listen_fails : Bool) (attempts : List Bool)
    → let l =
        run_accepts attempts
          (do_accept (make_listener open_fails option_fails bind_fails listen_fails)) in
      (l.accepts ≡ 1) × (l.sessions ≡ successes attempts)
unfolding make_listener
keeps_accepting a b c d attempts =
    let l = do_accept (make_listener a b c d) in ground (arith, accepting_on attempts l)
