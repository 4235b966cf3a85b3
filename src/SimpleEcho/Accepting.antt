-- ===== src/SimpleEcho/Accepting.antt =====
-- simple_echo_server.cpp: `Server` and `main`. Those of tcp_echo_server_read_write_decoupled.cpp and
-- tcp_echo_server_efficient_data_read_write.cpp, all in other_ressources/async_io_with_cpp, are the same code over
-- sessions of their own, so that the type of the sessions is a parameter.
use networking_cpp_intro.Common.{
  ℕ, zero, suc, ◌==◌, ◌≡◌, ◌∙◌, ap, if◌then◌else◌, Bool, true, false, List, [], ◌∷◌, ◌++◌, refl,
}

module _ {ℓ} (S : Type ℓ) where
  -- `waiting`: an accept is in hand, with the socket of `socket_`. The sessions are those that were started.
  pub record Server : Type ℓ where
    pub waiting : Bool
    pub sessions : List S

module _ {ℓ} {S : Type ℓ} (started : S) where
  abbrev pub accept : Server S → Server S
  accept v = record v { waiting = true }

  -- The constructor
  abbrev pub make_server : Server S
  make_server = accept (record { waiting = false; sessions = [] })

  -- The accept completes, with an error or not: the handler looks at none, and starts no further accept.
  unfoldable pub on_accept : Server S → Server S
  on_accept v =
      if v.waiting then record { waiting = false; sessions = v.sessions ++ started ∷ [] } else v

  pub run_accepts : ℕ → Server S → Server S
  run_accepts zero v = v
  run_accepts (suc n) v = run_accepts n (on_accept v)

  stays : (n : ℕ) (v : Server S) → v.waiting ≡ false → run_accepts n v ≡ v
  unfolding run_accepts on_accept
  stays zero v idle = refl
  stays (suc n) v idle =
      let same : on_accept v ≡ v = rw idle refl in ap (run_accepts n) same ∙ stays n v idle

  -- However long the server runs, it starts one session.
  pub serves_one : (n : ℕ) → (run_accepts (suc n) make_server).sessions ≡ started ∷ []
  unfolding run_accepts on_accept
  serves_one n =
      ap (λ (v : Server S). v.sessions)
        (stays n (record { waiting = false; sessions = started ∷ [] }) refl)

  -- `main`, with the number of its arguments: the usage, or a server that is destroyed before its I/O service runs.
  pub data Ending : Type ℓ where
    usage : Ending
    destroyed : Server S → Ending

  abbrev pub main : ℕ → Ending
  main argc = if argc == 2 then destroyed make_server else usage
