-- ===== src/TerminalServer/Replies.antt =====
-- simple_terminal_server.cpp: what a read or a write that completes does to the replies of one session.
use networking_cpp_intro.Common.{
  ◌-◌, ◌≡◌, ◌≤◌, ◌<◌, refl, ℕ, length-append, if◌then◌else◌, Bool, true, false, List, [], ◌∷◌, ◌++◌,
  append-nil, append_assoc, drop, Option, none, some, ◌>>=◌, Text, arith,
}
use networking_cpp_intro.TsQueue.{is_empty}
use networking_cpp_intro.TerminalServer.{
  Dispatcher, Session, prompt, reply, write_reply, start_read, first_line, behind_line, on_read,
  on_write,
}
use networking_cpp_intro.TerminalServer.Serving.{front_text}

-- A reply joins the queue.
write_reply-outgoing :
    (text : Text) (s : Session)
    → (write_reply text s).outgoing ≡ s.outgoing ++ (text ++ prompt) ∷ []
unfolding write_reply
write_reply-outgoing text s = ground arith

-- At most one write is in hand, and only while a text is queued.
abbrev pub IsModest : Session → Type 0
IsModest s = s.writes ≤ (if is_empty s.outgoing then 0 else 1)

write_reply-IsModest : (text : Text) (s : Session) → IsModest s → IsModest (write_reply text s)
unfolding write_reply
write_reply-IsModest text s h = ground (arith, length-append s.outgoing ((text ++ prompt) ∷ []))

pub on_write-IsModest :
    (fails : Bool) (s : Session) → 0 < s.writes → IsModest s → IsModest (on_write fails s)
unfolding on_write
on_write-IsModest fails s pending h = ground arith

pub on_write-outgoing :
    (fails : Bool) (s : Session)
    → (if fails then [] else front_text s.outgoing) ++ (on_write fails s).outgoing ≡ s.outgoing
unfolding on_write
on_write-outgoing fails s = ground arith

module _ (split : Text → List Text) (trim : Text → Text) (d : Dispatcher) where
  -- The reply that a line is due: none if it is blank.
  abbrev pub due : Text → List Text
  due line = elim (is_empty (trim line)) [
    | true ↦ []
    | false ↦ elim (reply split d (trim line)) [ none ↦ [] | some text ↦ (text ++ prompt) ∷ [] ]
  ]

  pub read-outgoing :
      (n : ℕ) (s s' : Session)
      → on_read split trim d false n s ≡ some s'
      → (s'.outgoing ≡ s.outgoing ++ due (first_line s.incoming)) × (IsModest s → IsModest s')
  unfolding on_read
  read-outgoing n s s' done =
      go (is_empty (trim (first_line s.incoming))) (reply split d (trim (first_line s.incoming)))
        done
    where
      go :
          (blank : Bool) (text : Option Text)
          → (if blank
              then some (
                  start_read
                    (record s { incoming = drop n (behind_line s.incoming); reads = s.reads - 1 }))
              else (do
                s'' ← text >>= (λ t. some (
                    write_reply t (record s {
                      incoming = drop n (behind_line s.incoming);
                      reads = s.reads - 1;
                    })))
                some (start_read s'')))
            ≡ some s'
          → (s'.outgoing
              ≡ s.outgoing ++ elim blank [
                | true ↦ []
                | false ↦ elim text [ none ↦ [] | some t ↦ (t ++ prompt) ∷ [] ]
              ])
            × (IsModest s → IsModest s')
      go true text h = (ground (arith, append-nil s.outgoing), λ m. ground arith)
      go false none h = absurd cc
      go false (some t) h =
          let taken = record s {
            incoming = drop n (behind_line s.incoming);
            reads = s.reads - 1;
          } in
          (
            ground (arith, write_reply-outgoing t taken),
            λ m. ground (arith, write_reply-IsModest t taken m),
          )

  pub failed_read-outgoing :
      (n : ℕ) (s s' : Session)
      → on_read split trim d true n s ≡ some s'
      → (s'.outgoing ≡ s.outgoing) × (IsModest s → IsModest s')
  unfolding on_read
  failed_read-outgoing n s s' done = (ground arith, λ m. ground arith)

  -- The replies that lines are due, in their order.
  pub replies_to : List Text → List Text
  replies_to [] = []
  replies_to (line ∷ lines) = due line ++ replies_to lines

  pub replies_to-append :
      (xs ys : List Text) → replies_to (xs ++ ys) ≡ replies_to xs ++ replies_to ys
  unfolding replies_to
  replies_to-append [] ys = refl
  replies_to-append (x ∷ xs) ys =
      rw (replies_to-append xs ys, append_assoc (due x) (replies_to xs) (replies_to ys))

  pub replies_to-line : (line : Text) → replies_to (line ∷ []) ≡ due line
  unfolding replies_to
  replies_to-line line = append-nil (due line)

  pub replies_to-nil : replies_to [] ≡ []
  unfolding replies_to
  replies_to-nil = refl
