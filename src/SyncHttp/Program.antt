-- ===== src/SyncHttp/Program.antt =====
-- simple_http_server.cpp: `main`, which accepts clients one after the other and gives each a thread that runs
-- `do_session`.
use networking_cpp_intro.Common.{
  ℕ, ◌==◌, ◌≡◌, if◌then◌else◌, Bool, List, [], ◌∷◌, ◌++◌, map, Option, none, some, refl, ap,
}
use networking_cpp_intro.SyncHttp.{Request, Response, ReadResult, Outcome, do_session}

-- What the reads and writes of a session give.
abbrev pub Rounds : Type 0
Rounds = List (ReadResult × Bool)

-- `usage`, an exception that is printed, and a call of `accept` that has not returned.
pub data Ending : Type 0 where
  usage exception accepting : Ending

-- `sessions` are what the sessions do, those that still run when an exception ends the program cut off.
pub record Run : Type 0 where
  pub sessions : List Outcome
  pub ending : Ending

module _ (need_eof : Response → Bool) (handle : Request → Option Response) (blank : Request) where
  -- The loop: `accept` throws, or it gives a client.
  unfoldable pub accept_loop : List (Option Rounds) → Run
  accept_loop [] = record { sessions = []; ending = accepting }
  accept_loop (none ∷ more) = record { sessions = []; ending = exception }
  accept_loop (some rounds ∷ more) =
      let rest = accept_loop more in
      record rest { sessions = do_session need_eof handle blank rounds ∷ rest.sessions }

  abbrev pub main : ℕ → List (Option Rounds) → Run
  main argc clients =
      if argc == 4 then accept_loop clients else record { sessions = []; ending = usage }

  -- Each client before the first exception is served by a session of its own, whatever the others do.
  pub accept_loop-map :
      (before : List Rounds) (after : List (Option Rounds))
      → accept_loop (map (λ rounds. some rounds) before ++ none ∷ after)
        ≡ record { sessions = map (do_session need_eof handle blank) before; ending = exception }
  unfolding accept_loop
  accept_loop-map [] after = refl
  accept_loop-map (rounds ∷ before) after =
      ap (λ (r : Run). record r { sessions = do_session need_eof handle blank rounds ∷ r.sessions })
        (accept_loop-map before after)
