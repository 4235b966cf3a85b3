-- ===== src/Server/Trust/Objects.antt =====
-- net_server.hpp: calls on one object of a store.
use networking_cpp_intro.Common.{
  ℕ, ◌≤◌, ◌==◌, ◌≡◌, ◌≢◌, refl, sym, ap, subst, ◌∙◌, if◌then◌else◌, Bool, true, false, List, [],
  ◌∷◌, some, get_elem?, All, arith, Option-cases, inl, inr, eq_of_some,
}
use networking_cpp_intro.Connection.{Connection, OwnedMessage}
use networking_cpp_intro.Server.{at}
use networking_cpp_intro.Server.Store.{get_elem?-at, get_elem?-at-none}
use networking_cpp_intro.Server.Trust.{AllObjects, Extends, IsHeard}

-- A call turns what held of the object that it is made on, and leaves the others.
pub at_each :
    (P Q : ℕ → Connection → Type 0) (p : ℕ) (f : Connection → Connection) (store : List Connection)
    → ((c : Connection) → get_elem? store p ≡ some c → P p c → Q p (f c))
    → ((q : ℕ) (c : Connection) → q ≢ p → P q c → Q q c)
    → AllObjects P store
    → AllObjects Q (at (some p) f store)
at_each P Q p f store turns leaves all q d h = elim (Option-cases (get_elem? store q)) [
  | inl e ↦ absurd (cc (h, get_elem?-at-none store p q f e))
  | inr (c, e) ↦
      subst (Q q) (eq_of_some (sym (get_elem?-at store p q f c e) ∙ h)) (go c e (p == q) refl)
]
  where
    go :
        (c : Connection)
        → get_elem? store q ≡ some c
        → (b : Bool) → (p == q) ≡ b
        → Q q (if b then f c else c)
    go c e true same =
        let here : p ≡ q = ground (arith, same) in
        subst (λ x. Q x (f c)) here
          (turns c (ap (get_elem? store) here ∙ e) (subst (λ x. P x c) (sym here) (all q c e)))
    go c e false other = leaves q c (λ here. ground (arith, other, here)) (all q c e)

pub at-AllObjects :
    (P : ℕ → Connection → Type 0) (p : ℕ) (f : Connection → Connection) (store : List Connection)
    → ((c : Connection) → get_elem? store p ≡ some c → P p c → P p (f c))
    → AllObjects P store
    → AllObjects P (at (some p) f store)
at-AllObjects P p f store keeps = at_each P P p f store keeps (λ q c other h. h)

pub at-Extends :
    (p : ℕ) (f : Connection → Connection) (store : List Connection)
    → ((c : Connection) → get_elem? store p ≡ some c → c.validated ≤ (f c).validated)
    → Extends store (at (some p) f store)
at-Extends p f store keeps = record {
  further = λ q c e. (_, get_elem?-at store p q f c e, go q c e (p == q) refl);
}
  where
    go :
        (q : ℕ) (c : Connection)
        → get_elem? store q ≡ some c
        → (b : Bool) → (p == q) ≡ b
        → c.validated ≤ (if b then f c else c).validated
    go q c e true same =
        let here : p ≡ q = ground (arith, same) in keeps c (ap (get_elem? store) here ∙ e)
    go q c e false other = omega arith

pub Extends-refl : (store : List Connection) → Extends store store
Extends-refl store = record { further = λ q c e. (c, e, omega arith) }

pub Extends-trans : {s t u : List Connection} → Extends s t → Extends t u → Extends s u
Extends-trans h k = record {
  further = λ q c e.
      let (d, e', more) = h.further q c e in
      let (d', e'', more') = k.further q d e' in (d', e'', omega (arith, more, more'));
}

pub Extends-IsHeard :
    {store store' : List Connection} (os : List OwnedMessage)
    → Extends store store'
    → All (IsHeard store) os
    → All (IsHeard store') os
Extends-IsHeard [] x h = tt
Extends-IsHeard (o ∷ os) x h =
    let (place, c, r, e, v) = h.0 in
    let (d, e', more) = x.further place c e in
    ((place, d, r, e', omega (arith, v, more)), Extends-IsHeard os x h.1)
