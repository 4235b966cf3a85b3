-- ===== src/Server/Store.antt =====
-- net_server.hpp: calls on one object leave the other objects alone.
use networking_cpp_intro.Common.{
  ℕ, zero, suc, ◌≡◌, refl, ◌==◌, if◌then◌else◌, false, List, [], ◌∷◌, ◌++◌, Option, none, some,
  length, get_elem?, set, arith, Option-cases, inl, inr,
}
use networking_cpp_intro.Connection.{Connection}
use networking_cpp_intro.Server.{at, is_connected}

get_elem?-set :
    (store : List Connection) (p q : ℕ) (c d : Connection)
    → get_elem? store p ≡ some c
    → get_elem? (set store p d) q ≡ (if p == q then some d else get_elem? store q)
get_elem?-set [] p q c d h = cc
get_elem?-set (x ∷ store) zero zero c d h = refl
get_elem?-set (x ∷ store) zero (suc q) c d h = ground arith
get_elem?-set (x ∷ store) (suc p) zero c d h = ground arith
get_elem?-set (x ∷ store) (suc p) (suc q) c d h = ground (arith, get_elem?-set store p q c d h)

-- What stands at a place after a call on another place or on this one.
pub get_elem?-at :
    (store : List Connection) (p q : ℕ) (f : Connection → Connection) (c : Connection)
    → get_elem? store q ≡ some c
    → get_elem? (at (some p) f store) q ≡ some (if p == q then f c else c)
get_elem?-at store p q f c h = elim (Option-cases (get_elem? store p)) [
  | inl e ↦ ground arith
  | inr (d, e) ↦ ground (arith, get_elem?-set store p q d (f d) e)
]

pub get_elem?-at-none :
    (store : List Connection) (p q : ℕ) (f : Connection → Connection)
    → get_elem? store q ≡ none
    → get_elem? (at (some p) f store) q ≡ none
get_elem?-at-none store p q f h = elim (Option-cases (get_elem? store p)) [
  | inl e ↦ ground arith
  | inr (d, e) ↦ ground (arith, get_elem?-set store p q d (f d) e)
]

-- A call that leaves the socket alone changes no answer of `IsConnected`.
pub is_connected-at :
    (store : List Connection) (p : ℕ) (f : Connection → Connection) (ref : Option ℕ)
    → ((c : Connection) → (f c).is_open ≡ c.is_open)
    → is_connected (at (some p) f store) ref ≡ is_connected store ref
is_connected-at store p f none keeps = refl
is_connected-at store p f (some q) keeps = elim (Option-cases (get_elem? store q)) [
  | inl e ↦ ground (arith, get_elem?-at-none store p q f e)
  | inr (c, e) ↦ ground (arith, get_elem?-at store p q f c e, keeps c)
]

pub get_elem?-push_back :
    (store : List Connection) (c : Connection) → get_elem? (store ++ c ∷ []) (length store) ≡ some c
get_elem?-push_back [] c = refl
get_elem?-push_back (x ∷ store) c = get_elem?-push_back store c

pub get_elem?-append :
    (store : List Connection) (q : ℕ) (c d : Connection)
    → get_elem? store q ≡ some d
    → (get_elem? (store ++ c ∷ []) q ≡ some d) × ((length store == q) ≡ false)
get_elem?-append [] q c d h = cc
get_elem?-append (x ∷ store) zero c d h = ground arith
get_elem?-append (x ∷ store) (suc q) c d h = ground (arith, get_elem?-append store q c d h)

-- A call on the object that was added last, and on another one.
pub get_elem?-at_self :
    (store : List Connection) (p : ℕ) (f : Connection → Connection) (c : Connection)
    → get_elem? store p ≡ some c
    → get_elem? (at (some p) f store) p ≡ some (f c)
get_elem?-at_self store p f c h = ground (arith, get_elem?-at store p p f c h)

pub get_elem?-at_other :
    (store : List Connection) (p q : ℕ) (f : Connection → Connection) (c : Connection)
    → (p == q) ≡ false
    → get_elem? store q ≡ some c
    → get_elem? (at (some p) f store) q ≡ some c
get_elem?-at_other store p q f c n h = ground (arith, get_elem?-at store p q f c h)
