-- ===== src/Server/Trust/Accepting.antt =====
-- net_server.hpp: what an object becomes from its construction to the end of the accept handler.
use networking_cpp_intro.Common.{
  ℕ, ◌≤◌, ◌≡◌, refl, ap, subst, ◌∙◌, Bool, true, false, Bool-cases, inl, inr, [], ◌∷◌, ◌++◌, arith,
}
use networking_cpp_intro.Message.{Message}
use networking_cpp_intro.Connection.{
  Connection, AsyncOp, server, posted_send, checking_validation, sending_validation, start, close,
  make_connection, connect_to_client, send_data,
}
use networking_cpp_intro.Connection.Pending.{
  is_reading, is_checking, is_asking, select, select-start, select-append,
}
use networking_cpp_intro.Connection.Handshake.Stages.{
  Leaves, waiting, refused, Leaves-Trusted, IsServing-Leaves, IsQuiet-Leaves,
}
use networking_cpp_intro.Connection.Handshake.Bystanders.{start-Leaves}
use networking_cpp_intro.Server.Trust.{IsGuarded, IsRaw}

send_data-Leaves : (m : Message) (c : Connection) → Leaves c (send_data m c)
unfolding send_data
send_data-Leaves m c = start-Leaves (posted_send m) c refl refl refl

pub send_data-IsGuarded :
    (m : Message) {p : ℕ} {c : Connection} → IsGuarded p c → IsGuarded p (send_data m c)
unfolding send_data
send_data-IsGuarded m {p} {c} g = record {
  own_place = g.own_place;
  gives_back = g.gives_back;
  trusted = Leaves-Trusted (send_data-Leaves m c) g.trusted;
  clocked = g.clocked;
}

pub send_data-IsRaw : (m : Message) {p : ℕ} {c : Connection} → IsRaw p c → IsRaw p (send_data m c)
unfolding send_data
send_data-IsRaw m {p} {c} r =
    let l = send_data-Leaves m c in
    record {
      own_place = r.own_place;
      serving = IsServing-Leaves l r.serving;
      unchecked = l.checks ∙ r.unchecked;
      quiet = IsQuiet-Leaves l r.quiet;
      clocked = r.clocked;
    }

pub send_data-validated : (m : Message) (c : Connection) → c.validated ≤ (send_data m c).validated
unfolding send_data
send_data-validated m c = omega arith

pub make_connection-IsRaw :
    (place now memory : ℕ) → IsRaw place (make_connection server place true [] now memory)
unfolding make_connection
make_connection-IsRaw place now memory = record {
  own_place = refl;
  serving = record { serves = refl; expects = refl; asks_nothing = refl };
  unchecked = refl;
  quiet = record { unread = refl; undelivered = refl; not_validated = refl };
  clocked = (now, refl);
}

-- An object that is turned down.
pub close-IsGuarded : {p : ℕ} {c : Connection} → IsRaw p c → IsGuarded p (close c)
close-IsGuarded r = record {
  own_place = r.own_place;
  clocked = r.clocked;
  gives_back = r.quiet.undelivered;
  trusted = (
    record { serves = r.serving.serves; expects = refl; asks_nothing = r.serving.asks_nothing },
    refused r.unchecked
        (record {
          unread = r.quiet.unread;
          undelivered = r.quiet.undelivered;
          not_validated = r.quiet.not_validated;
        })
        refl,
  );
}

asked : ℕ → Connection → Connection
asked u_id c = start checking_validation (start sending_validation (record c { id = u_id }))

asked_same :
    (u_id : ℕ) (c : Connection) (kind : AsyncOp → Bool)
    → kind checking_validation ≡ false
    → kind sending_validation ≡ false
    → select kind (asked u_id c).pending ≡ select kind c.pending
unfolding asked
asked_same u_id c kind n s =
    select-start kind (c.pending ++ sending_validation ∷ []) checking_validation n
    ∙ select-start kind c.pending sending_validation s

asked-IsGuarded : (u_id : ℕ) {p : ℕ} {c : Connection} → IsRaw p c → IsGuarded p (asked u_id c)
unfolding asked
asked-IsGuarded u_id {p} {c} r = record {
  own_place = r.own_place;
  clocked = r.clocked;
  gives_back = r.quiet.undelivered;
  trusted = (
    record {
      serves = r.serving.serves;
      expects = refl;
      asks_nothing = asked_same u_id c is_asking refl refl ∙ r.serving.asks_nothing;
    },
    waiting
        (select-append is_checking (c.pending ++ sending_validation ∷ []) (checking_validation ∷ [])
          ∙ ap (λ x. x ++ checking_validation ∷ [])
              (select-start is_checking c.pending sending_validation refl ∙ r.unchecked))
        (record {
          unread = asked_same u_id c is_reading refl refl ∙ r.quiet.unread;
          undelivered = r.quiet.undelivered;
          not_validated = r.quiet.not_validated;
        }),
  );
}

-- An object that is welcome; where its socket has been closed meanwhile, it has no answer to wait for.
pub connect_to_client-IsGuarded :
    (u_id : ℕ) {p : ℕ} {c : Connection} → IsRaw p c → IsGuarded p (connect_to_client u_id c)
unfolding connect_to_client asked
connect_to_client-IsGuarded u_id {p} {c} r = elim (Bool-cases c.is_open) [
  | inl opened ↦ subst (IsGuarded p) (ground (arith, r.serving.serves)) (asked-IsGuarded u_id r)
  | inr shut ↦ subst (IsGuarded p) (ground (arith, r.serving.serves)) (close-IsGuarded r)
]

pub connect_to_client-validated :
    (u_id : ℕ) (c : Connection) → c.validated ≤ (connect_to_client u_id c).validated
unfolding connect_to_client
connect_to_client-validated u_id c = ground arith
