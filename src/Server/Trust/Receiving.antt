-- ===== src/Server/Trust/Receiving.antt =====
-- net_server.hpp: the I/O service completes an entry of one connection's pending work.
use networking_cpp_intro.Common.{
  ℕ, ◌≤◌, ◌≡◌, refl, sym, ap, subst, ◌∙◌, Bool, inl, inr, List, [], ◌∷◌, ◌++◌, Option, some,
  get_elem?, set, All, All-append, arith, >>=-eq-some, eq_of_some,
}
use networking_cpp_intro.Connection.{Connection, AsyncOp, complete}
use networking_cpp_intro.Connection.Steps.{resumed}
use networking_cpp_intro.Connection.Delivery.{complete-Delivers}
use networking_cpp_intro.Connection.Lending.{lend, lent_completion, complete-validated}
use networking_cpp_intro.Connection.Handshake.Stages.{waiting, passed, refused, Trusted}
use networking_cpp_intro.Connection.Handshake.Trust.{completes-Trusted, delivered-Trusted}
use networking_cpp_intro.Server.{Server, at, on_completion}
use networking_cpp_intro.Server.Store.{get_elem?-at_self}
use networking_cpp_intro.Server.Trust.{IsGuarded, AllObjects, Extends, IsHeard, IsVigilant}
use networking_cpp_intro.Server.Trust.Objects.{at-AllObjects, at-Extends, Extends-IsHeard}

emptied-Trusted : {k : ℕ} {d : Connection} → Trusted k d → Trusted d.handshake_check (lend [] d)
emptied-Trusted (s, waiting p q) = (
  record { serves = s.serves; expects = refl; asks_nothing = s.asks_nothing },
  waiting p (record { unread = q.unread; undelivered = refl; not_validated = q.not_validated }),
)
emptied-Trusted (s, passed p v a) =
    (record { serves = s.serves; expects = refl; asks_nothing = s.asks_nothing }, passed p v a)
emptied-Trusted (s, refused p q b) = (
  record { serves = s.serves; expects = refl; asks_nothing = s.asks_nothing },
  refused p (record { unread = q.unread; undelivered = refl; not_validated = q.not_validated }) b,
)

-- A handler of a guarded object, as it is on an empty queue.
module _ (place : ℕ) (op : AsyncOp) (failed : Bool) (bytes : List ℕ) (before after : List AsyncOp)
    (c d : Connection) (g : IsGuarded place c) (e : c.pending ≡ before ++ op ∷ after)
    (ok : complete op failed bytes (lend [] (resumed before after c)) ≡ some d) where
  own_queue : complete op failed bytes (resumed before after c) ≡ some d
  own_queue =
      subst (λ q. complete op failed bytes (lend q (resumed before after c)) ≡ some d)
        (sym g.gives_back) ok

  result-Trusted : Trusted c.handshake_check d
  result-Trusted = completes-Trusted failed bytes before after c d op e own_queue g.trusted

  result-IsGuarded : IsGuarded place (lend [] d)
  result-IsGuarded = record {
    own_place =
        (complete-validated op failed bytes (lend [] (resumed before after c)) d ok).1
        ∙ g.own_place;
    gives_back = refl;
    trusted = emptied-Trusted result-Trusted;
    clocked = (g.clocked.0, result-Trusted.0.expects ∙ g.clocked.1);
  }

  result_validated : c.validated ≤ d.validated
  result_validated = (complete-validated op failed bytes (lend [] (resumed before after c)) d ok).0

  -- What came in has been heard at this place.
  result-IsHeard :
      (store : List Connection)
      → get_elem? store place ≡ some (lend [] d)
      → All (IsHeard store) d.in_msg_queue
  result-IsHeard store here =
      elim (complete-Delivers op failed bytes (lend [] (resumed before after c)) d ok) [
        | inl same ↦ subst (All (IsHeard store)) (sym same) tt
        | inr (reads, one) ↦
            let told = delivered-Trusted d result-Trusted (λ none_came. cc) in
            subst (All (IsHeard store)) (sym one) (
              (
                place,
                lend [] d,
                rw (g.trusted.0.serves) (ap some g.own_place),
                here,
                omega (arith, told.0),
              ),
              tt,
            )
      ]

at-set :
    (store : List Connection) (p : ℕ) (c d : Connection)
    → get_elem? store p ≡ some c
    → at (some p) (λ x. d) store ≡ set store p d
at-set store p c d e = ground (arith, e)

returned-IsVigilant :
    (place : ℕ) (op : AsyncOp) (failed : Bool) (bytes : List ℕ) (before after : List AsyncOp)
    (c d : Connection) (s : Server)
    → IsGuarded place c
    → get_elem? s.store place ≡ some c
    → c.pending ≡ before ++ op ∷ after
    → complete op failed bytes (lend [] (resumed before after c)) ≡ some d
    → IsVigilant s
    → IsVigilant (record s {
      store = set s.store place (lend [] d);
      in_msg_queue = s.in_msg_queue ++ d.in_msg_queue;
    })
returned-IsVigilant place op failed bytes before after c d s g here e ok v =
    let put = at-set s.store place c (lend [] d) here in
    let more = result_validated place op failed bytes before after c d g e ok in
    let longer : Extends s.store (set s.store place (lend [] d)) = subst (Extends s.store) put (
      at-Extends place (λ x. lend [] d) s.store
        (λ x there. subst (λ y. y.validated ≤ d.validated) (eq_of_some (sym here ∙ there)) more)) in
    record {
      objects = subst (AllObjects IsGuarded) put (
          at-AllObjects IsGuarded place (λ x. lend [] d) s.store
            (λ x _ _. result-IsGuarded place op failed bytes before after c d g e ok) v.objects);
      messages =
          All-append (IsHeard (set s.store place (lend [] d))) s.in_msg_queue d.in_msg_queue
            (Extends-IsHeard s.in_msg_queue longer v.messages)
            (result-IsHeard place op failed bytes before after c d g e ok
              (set s.store place (lend [] d))
              (subst (λ x. get_elem? x place ≡ some (lend [] d)) put
                (get_elem?-at_self s.store place (λ x. lend [] d) c here)));
    }

-- Whatever completes at a guarded object.
pub on_completion-IsVigilant :
    (place : ℕ) (op : AsyncOp) (failed : Bool) (bytes : List ℕ) (before after : List AsyncOp)
    (c : Connection) (s s' : Server)
    → get_elem? s.store place ≡ some c
    → c.pending ≡ before ++ op ∷ after
    → on_completion place op failed bytes before after s ≡ some s'
    → IsVigilant s
    → IsVigilant s'
unfolding on_completion
on_completion-IsVigilant place op failed bytes before after c s s' here e h v =
    let finish : Connection → Option Server = λ c'. some (record s {
      store = set s.store place (record c' { in_msg_queue = [] });
      in_msg_queue = c'.in_msg_queue;
    }) in
    let (c', came, done) =
      >>=-eq-some (complete op failed bytes (lend s.in_msg_queue (resumed before after c))) finish
        (rw here at h) in
    let (d, ok, back) =
      lent_completion op failed bytes s.in_msg_queue (resumed before after c) c' came in
    subst IsVigilant
      (ap (λ x. record s { store = set s.store place (lend [] x); in_msg_queue = x.in_msg_queue })
          back
        ∙ eq_of_some done)
      (returned-IsVigilant place op failed bytes before after c d s (v.objects place c here) here e
        ok v)
