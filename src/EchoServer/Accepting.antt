-- ===== src/EchoServer/Accepting.antt =====
-- tcp_echo_server_circularbuffer_multithreaded.cpp: `Server`, which takes a context of the group for
-- each accept.
use networking_cpp_intro.Common.{
  ℕ, zero, suc, ◌≡◌, ◌∙◌, refl, List, [], ◌∷◌, ◌++◌, Option, none, some, arith,
}
use networking_cpp_intro.EchoServer.Contexts.{IoContextGroup, query}

-- `waiting` is the context of the accept in hand, and `sessions` are the contexts of those started.
pub record Server : Type 0 where
  pub ioserv_group : IoContextGroup
  pub waiting : Option ℕ
  pub sessions : List ℕ

unfoldable pub accept : Server → Server
accept s =
    let (context, group) = query s.ioserv_group in
    record s { ioserv_group = group; waiting = some context }

-- The constructor
abbrev pub make_server : IoContextGroup → Server
make_server group = accept (record { ioserv_group = group; waiting = none; sessions = [] })

-- An accept completes, with an error or not: the handler starts a session and looks at no error.
unfoldable pub on_accept : Server → Server
on_accept s = elim s.waiting [
  | none ↦ s
  | some context ↦ record s { waiting = none; sessions = s.sessions ++ context ∷ [] }
]

abbrev pub run_accepts : ℕ → Server → Server
run_accepts zero s = s
run_accepts (suc n) s = run_accepts n (on_accept s)

idle_for_good : (n : ℕ) (s : Server) → s.waiting ≡ none → run_accepts n s ≡ s
unfolding on_accept
idle_for_good zero s h = refl
idle_for_good (suc n) s h =
    let same : on_accept s ≡ s = grind (arith, h) in
    idle_for_good n (on_accept s) (cc (same, h)) ∙ same

-- However long the server runs, it starts one session, on the first context that the group gives, and
-- no further accept: the other contexts are never used.
pub serves_one :
    (n : ℕ) (group : IoContextGroup)
    → let s = run_accepts (suc n) (make_server group) in
      (s.sessions ≡ (query group).0 ∷ []) × (s.waiting ≡ none) × (s.ioserv_group ≡ (query group).1)
unfolding accept on_accept query
serves_one n group =
    let s = on_accept (make_server group) in
    let same = idle_for_good n s refl in (cc same, cc same, cc same)
