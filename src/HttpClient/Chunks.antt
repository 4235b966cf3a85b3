-- ===== src/HttpClient/Chunks.antt =====
-- other_ressources/the_boost_libraries/networking_client.cpp: a client that prints the answer in the chunks in
-- which it comes.
use networking_cpp_intro.Common.{
  ◌≡◌, refl, sym, ap, ◌∙◌, if◌then◌else◌, Bool, false, List, [], ◌∷◌, ◌++◌, append_assoc,
  append-nil, Text, codes, arith, Bool-cases, inl, inr,
}
use networking_cpp_intro.HttpClient.{
  Phase, resolving, connecting, handshaking, writing, reading, shutting_down, ended,
}

-- What is in hand, what has been written to the socket, and what has been printed of the answer.
pub record Program : Type 0 where
  pub phase : Phase
  pub written : List Text
  pub printed : Text

-- How an operation completes; a read brings bytes.
pub record Completion : Type 0 where
  pub fails : Bool
  pub bytes : Text

-- `main` up to `run`
abbrev pub started : Program
started = record { phase = resolving; written = []; printed = [] }

abbrev pub r : Text
r = codes "GET / HTTP/1.1\r\nHost: theboostcpplibraries.com\r\n\r\n"

-- After an error a handler starts nothing.
abbrev pub give_up : Program → Program
give_up p = record p { phase = ended }

unfoldable pub resolve_handler : Bool → Program → Program
resolve_handler fails p = if fails then give_up p else record p { phase = connecting }

-- The write is synchronous; that it throws is left out.
unfoldable pub connect_handler : Bool → Program → Program
connect_handler fails p =
    if fails then give_up p else record p { phase = reading; written = p.written ++ r ∷ [] }

unfoldable pub read_handler : Bool → Text → Program → Program
read_handler fails bytes p =
    if fails then give_up p else record p { phase = reading; printed = p.printed ++ bytes }

unfoldable pub complete : Completion → Program → Program
complete c p = elim p.phase [
  | resolving ↦ resolve_handler c.fails p
  | connecting ↦ connect_handler c.fails p
  | reading ↦ read_handler c.fails c.bytes p
  | handshaking ↦ p
  | writing ↦ p
  | shutting_down ↦ p
  | ended ↦ p
]

-- `ioserv.run`
unfoldable pub completes : List Completion → Program → Program
completes [] p = p
completes (c ∷ more) p = completes more (complete c p)

-- The bytes that come before the first failure.
abbrev pub before_failure : List Completion → Text
before_failure [] = []
before_failure (c ∷ more) = if c.fails then [] else c.bytes ++ before_failure more

ended_stays : (cs : List Completion) (p : Program) → p.phase ≡ ended → completes cs p ≡ p
unfolding completes complete
ended_stays [] p h = refl
ended_stays (c ∷ cs) p h =
    let same : complete c p ≡ p = grind (arith, h) in
    ended_stays cs (complete c p) (cc (same, h)) ∙ same

reads_print :
    (cs : List Completion) (p : Program)
    → p.phase ≡ reading
    → (completes cs p).printed ≡ p.printed ++ before_failure cs
unfolding completes complete read_handler
reads_print [] p h = sym (append-nil p.printed)
reads_print (c ∷ cs) p h = elim (Bool-cases c.fails) [
  | inl fails ↦
      let over : complete c p ≡ give_up p = grind (arith, h, fails) in
      ap (λ (q : Program). q.printed) (ap (completes cs) over ∙ ended_stays cs (give_up p) refl)
      ∙ rw fails (sym (append-nil p.printed))
  | inr more ↦
      let on : Program = record p { phase = reading; printed = p.printed ++ c.bytes } in
      let goes : complete c p ≡ on = grind (arith, h, more) in
      ap (λ (q : Program). (completes cs q).printed) goes
      ∙ reads_print cs on refl
      ∙ rw more (append_assoc p.printed c.bytes (before_failure cs))
]

-- Once the name is resolved and the connection stands, what is printed are the bytes of all reads before the first
-- that fails, in their order.
pub prints_until_failure :
    (a b : Completion) (cs : List Completion)
    → a.fails ≡ false
    → b.fails ≡ false
    → (completes (a ∷ b ∷ cs) started).printed ≡ before_failure cs
unfolding completes complete resolve_handler connect_handler
prints_until_failure a b cs resolved stands =
    let on : Program = record { phase = reading; written = r ∷ []; printed = [] } in
    let goes : complete b (complete a started) ≡ on = grind (arith, resolved, stands) in
    ap (λ (q : Program). (completes cs q).printed) goes ∙ reads_print cs on refl
