-- ===== src/Connection/Pending.antt =====
-- The pending work of one kind: what stays of it when work is started or completes.
use networking_cpp_intro.Common.{
  ◌≡◌, refl, if◌then◌else◌, Bool, true, false, List, [], ◌∷◌, ◌++◌, arith,
}
use networking_cpp_intro.Connection.{
  AsyncOp, connecting, reading_header, reading_payload, writing_header, writing_payload,
  reading_validation_request, checking_validation,
}

abbrev pub is_writing : AsyncOp → Bool
is_writing writing_header = true
is_writing writing_payload = true
is_writing _ = false

-- Reads of messages, those of the handshake aside.
abbrev pub is_reading : AsyncOp → Bool
is_reading reading_header = true
is_reading reading_payload = true
is_reading _ = false

abbrev pub is_checking : AsyncOp → Bool
is_checking checking_validation = true
is_checking _ = false

-- Work that only a client's connection starts.
abbrev pub is_asking : AsyncOp → Bool
is_asking connecting = true
is_asking reading_validation_request = true
is_asking _ = false

module _ (kind : AsyncOp → Bool) where
  abbrev pub select : List AsyncOp → List AsyncOp
  select [] = []
  select (op ∷ ops) = if kind op then op ∷ select ops else select ops

  pub select-append : (xs ys : List AsyncOp) → select (xs ++ ys) ≡ select xs ++ select ys
  select-append [] ys = refl
  select-append (x ∷ xs) ys = ground (arith, select-append xs ys)

  pub select-start :
      (ops : List AsyncOp) (op : AsyncOp) → kind op ≡ false → select (ops ++ op ∷ []) ≡ select ops
  select-start [] op h = rw h
  select-start (x ∷ xs) op h = ground (arith, select-start xs op h)

  -- Work of another kind that completes leaves the selection as it was.
  pub select-resumed :
      (before after : List AsyncOp) (op : AsyncOp)
      → kind op ≡ false
      → select (before ++ after) ≡ select (before ++ op ∷ after)
  select-resumed [] after op h = rw h
  select-resumed (x ∷ xs) after op h = ground (arith, select-resumed xs after op h)

  pub select_not_none :
      (before after : List AsyncOp) (op : AsyncOp)
      → kind op ≡ true
      → select (before ++ op ∷ after) ≡ []
      → ⊥
  select_not_none [] after op h e = ground arith
  select_not_none (y ∷ ys) after op h e = ground (arith, select_not_none ys after op h)

  -- An entry that completes, where only one of its kind is pending, is that one, and leaves none.
  pub select_of_only :
      (before after : List AsyncOp) (op x : AsyncOp)
      → kind op ≡ true
      → select (before ++ op ∷ after) ≡ x ∷ []
      → (x ≡ op) × (select (before ++ after) ≡ [])
  select_of_only [] after op x h e = ground arith
  select_of_only (y ∷ ys) after op x h e =
      ground (arith, select_not_none ys after op h, select_of_only ys after op x h)
