-- ===== src/HttpServer/Listening.antt =====
-- async_http_server.cpp: `Listener`. A step of the set-up that fails ends the constructor early; `run`
-- is called in any case.
use networking_cpp_intro.Common.{
  ℕ, ◌+◌, ◌-◌, ◌==◌, ◌≡◌, if◌then◌else◌, Bool, true, false, List, [], ◌∷◌, arith,
}

-- `accepts` is the number of accepts that the I/O service has in hand.
pub record Listener : Type 0 where
  pub listening : Bool
  pub accepts : ℕ
  pub sessions : ℕ

-- The constructor: whether `open`, `set_option`, `bind` and `listen` fail, in this order.
unfoldable pub make_listener : Bool → Bool → Bool → Bool → Listener
make_listener open_fails option_fails bind_fails listen_fails =
    let l : Listener = record { listening = false; accepts = 0; sessions = 0 } in
    if open_fails
    then l
    else if option_fails
    then l
    else if bind_fails
    then l
    else if listen_fails
    then l
    else record l { listening = true }

-- `run` and `do_accept`
abbrev pub do_accept : Listener → Listener
do_accept l = record l { accepts = l.accepts + 1 }

-- `on_accept`; the accept in hand is over.
unfoldable pub on_accept : Bool → Listener → Listener
on_accept fails l = if fails then l else record l { sessions = l.sessions + 1 }

-- The accepts complete one after the other, each with an error or not.
unfoldable pub run_accepts : List Bool → Listener → Listener
run_accepts [] l = l
run_accepts (fails ∷ more) l =
    if l.accepts == 0
    then l
    else run_accepts more (on_accept fails (record l { accepts = l.accepts - 1 }))

-- However many clients try to connect, the server serves one at most, and after the first attempt, also
-- a failed one, it waits for none: the accept handler starts no further accept.
pub accepts_one :
    (open_fails option_fails bind_fails listen_fails fails : Bool) (more : List Bool)
    → let l =
        run_accepts
          (fails ∷ more)
          (do_accept (make_listener open_fails option_fails bind_fails listen_fails)) in
      (l.accepts ≡ 0) × (l.sessions ≡ (if fails then 0 else 1))
unfolding make_listener on_accept run_accepts
accepts_one a b c d fails [] = ground arith
accepts_one a b c d fails (x ∷ more) = ground arith
