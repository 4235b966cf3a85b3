-- ===== src/TerminalServer/Serving/Alone.antt =====
-- simple_terminal_server.cpp: each session of a server gets the replies to its own lines.
use networking_cpp_intro.Common.{
  ℕ, ◌<◌, ◌≡◌, ◌≢◌, ◌⊎◌, ◌==◌, refl, sym, ap, subst, ◌∙◌, if◌then◌else◌, Bool-cases, inl, inr, List,
  [], ◌∷◌, ◌++◌, append-nil, append_assoc, Option, none, some, get_elem?, set, length,
  get_elem?-set_self, get_elem?-set_ne, Text, eq_of_some, >>=-eq-some, zero, suc, arith,
}
use networking_cpp_intro.TerminalServer.{
  Dispatcher, Session, started, welcome, prompt, on_write, first_line,
}
use networking_cpp_intro.TerminalServer.Replies.{
  replies_to, replies_to-append, replies_to-line, replies_to-nil, IsModest, read-outgoing,
  on_write-IsModest, failed_read-outgoing, on_write-outgoing,
}
use networking_cpp_intro.TerminalServer.Serving.{
  Server, Handlers, attach_commands, served, make_server, on_accept, Log, numbered, front_text,
  History, begins, with_bytes, Step, accepted, read_done, read_failed, write_done, Reach, here,
  next,
}

-- The texts of one session, in their order.
abbrev pub texts_of : ℕ → Log → List Text
texts_of i [] = []
texts_of i ((j, text) ∷ log) = let more = texts_of i log in if j == i then text ∷ more else more

texts_of-own :
    (i : ℕ) (log : Log) (ts : List Text) → texts_of i (log ++ numbered i ts) ≡ texts_of i log ++ ts
texts_of-own i [] [] = refl
texts_of-own i [] (t ∷ ts) = ground (arith, texts_of-own i [] ts)
texts_of-own i ((j, t) ∷ log) ts = ground (arith, texts_of-own i log ts)

texts_of-other :
    (i j : ℕ) (log : Log) (ts : List Text)
    → i ≢ j
    → texts_of j (log ++ numbered i ts) ≡ texts_of j log
texts_of-other i j [] [] other = refl
texts_of-other i j [] (t ∷ ts) other = ground (arith, texts_of-other i j [] ts other)
texts_of-other i j ((k, t) ∷ log) ts other = ground (arith, texts_of-other i j log ts other)

index_below :
    (sessions : List Session) (i : ℕ) {s : Session}
    → get_elem? sessions i ≡ some s
    → i < length sessions
index_below [] i e = absurd cc
index_below (x ∷ sessions) zero e = omega arith
index_below (x ∷ sessions) (suc i) e = omega (arith, index_below sessions i e)

snoc_cases :
    (sessions : List Session) (j : ℕ)
    → (get_elem? (sessions ++ started ∷ []) j ≡ get_elem? sessions j)
      ⊎ ((get_elem? sessions j ≡ none) × (get_elem? (sessions ++ started ∷ []) j ≡ some started))
snoc_cases [] zero = inr (refl, refl)
snoc_cases [] (suc j) = inl refl
snoc_cases (x ∷ sessions) zero = inl refl
snoc_cases (x ∷ sessions) (suc j) = snoc_cases sessions j

module _ (split : Text → List Text) (trim : Text → Text) (d : Dispatcher) where
  -- What the texts of session `i` are, whether it is there or not.
  data Answered (i : ℕ) (o : Option Session) (lines written : Log) : Type 0 where
    absent : o ≡ none → texts_of i lines ≡ [] → texts_of i written ≡ [] → Answered i o lines written
    present :
        (s : Session)
        → o ≡ some s
        → texts_of i written ++ s.outgoing
          ≡ (welcome ++ prompt) ∷ replies_to split trim d (texts_of i lines)
        → IsModest s
        → Answered i o lines written

  Answered-same :
      {i : ℕ} {o o' : Option Session} {lines lines' written written' : Log}
      → o' ≡ o
      → texts_of i lines' ≡ texts_of i lines
      → texts_of i written' ≡ texts_of i written
      → Answered i o lines written
      → Answered i o' lines' written'
  Answered-same ho hl hw (absent n l w) = absent (ho ∙ n) (hl ∙ l) (hw ∙ w)
  Answered-same ho hl hw (present s e a m) = present s (ho ∙ e) (cc (hl, hw, a)) m

  -- A session that took the lines `ls` and has written the texts `ws`.
  module _ (i : ℕ) (s s' : Session) {lines lines' written written' : Log} (ls ws : List Text)
      (el : lines' ≡ lines ++ numbered i ls) (ew : written' ≡ written ++ numbered i ws)
      (flow : ws ++ s'.outgoing ≡ s.outgoing ++ replies_to split trim d ls)
      (keeps : IsModest s → IsModest s') where
    Answered-own : Answered i (some s) lines written → Answered i (some s') lines' written'
    Answered-own (absent n l w) = absurd cc
    Answered-own (present s0 e a m) =
        present s' refl
          (cc (
            a,
            eq_of_some e,
            flow,
            ap (texts_of i) el ∙ texts_of-own i lines ls,
            ap (texts_of i) ew ∙ texts_of-own i written ws,
            append_assoc (texts_of i written) ws s'.outgoing,
            append_assoc (texts_of i written) s.outgoing (replies_to split trim d ls),
            replies_to-append split trim d (texts_of i lines) ls,
          ))
          (keeps (subst IsModest (sym (eq_of_some e)) m))

    Answered-set :
        (sessions : List Session)
        → get_elem? sessions i ≡ some s
        → ((j : ℕ) → Answered j (get_elem? sessions j) lines written)
        → (j : ℕ) → Answered j (get_elem? (set sessions i s') j) lines' written'
    Answered-set sessions e all j = elim (Bool-cases (i == j)) [
      | inl same ↦
          let is : i ≡ j = ground (arith, same) in
          subst (λ k. Answered k (get_elem? (set sessions i s') k) lines' written') is
            (subst (λ o. Answered i o lines' written')
              (sym (get_elem?-set_self sessions i s' (index_below sessions i e)))
              (Answered-own (subst (λ o. Answered i o lines written) e (all i))))
      | inr other ↦
          let apart : i ≢ j = λ h. ground (arith, other, h) in
          Answered-same (get_elem?-set_ne sessions s' apart)
            (ap (texts_of j) el ∙ texts_of-other i j lines ls apart)
            (ap (texts_of j) ew ∙ texts_of-other i j written ws apart) (all j)
    ]

  started-Answered :
      (sessions : List Session) (j : ℕ) {lines written : Log}
      → Answered j (get_elem? sessions j) lines written
      → Answered j (get_elem? (sessions ++ started ∷ []) j) lines written
  started-Answered sessions j {lines} {written} a = elim (snoc_cases sessions j) [
    | inl same ↦ Answered-same same refl refl a
    | inr (new, last) ↦ started_is_new (subst (λ o. Answered j o lines written) new a) last
  ]
    where
      started_is_new :
          {o : Option Session} {lines written : Log}
          → Answered j none lines written
          → o ≡ some started
          → Answered j o lines written
      started_is_new (absent n l w) e =
          present started e (cc (l, w, replies_to-nil split trim d)) (omega arith)
      started_is_new (present s n x m) e = absurd cc

  record IsServing (t : History) : Type 0 where
    same_table : t.server.dispatcher ≡ d
    listening : t.server.accepts ≡ 1
    own : (i : ℕ) → Answered i (get_elem? t.server.sessions i) t.lines t.written

  Step-IsServing : {t u : History} → Step split trim t u → IsServing t → IsServing u
  unfolding on_accept
  Step-IsServing {t} (accepted pending) o = record {
    same_table = o.same_table;
    listening = omega (arith, o.listening);
    own = λ j. started-Answered t.server.sessions j (o.own j);
  }
  Step-IsServing {t} (read_done i more s s' e pending found done) o =
      let line = first_line (with_bytes more s).incoming in
      let read =
        read-outgoing split trim d (suc (length line)) (with_bytes more s) s'
          (rw (← o.same_table) done) in
      record {
        same_table = o.same_table;
        listening = o.listening;
        own =
            Answered-set i s s' (line ∷ []) [] refl (sym (append-nil t.written))
              (read.0 ∙ ap (λ x. s.outgoing ++ x) (sym (replies_to-line split trim d line))) read.1
              t.server.sessions e o.own;
      }
  Step-IsServing {t} (read_failed i more s s' e pending done) o = record {
    same_table = o.same_table;
    listening = o.listening;
    own =
        Answered-set i s s' [] [] (sym (append-nil t.lines)) (sym (append-nil t.written))
          ((failed_read-outgoing split trim d 0 (with_bytes more s) s' (rw (← o.same_table) done)).0
            ∙ sym (ap (λ x. s.outgoing ++ x) (replies_to-nil split trim d) ∙ append-nil s.outgoing))
          (failed_read-outgoing split trim d 0 (with_bytes more s) s' (rw (← o.same_table) done)).1
          t.server.sessions e o.own;
  }
  Step-IsServing {t} (write_done i fails s e pending) o = record {
    same_table = o.same_table;
    listening = o.listening;
    own =
        Answered-set i s (on_write fails s) [] (if fails then [] else front_text s.outgoing)
          (sym (append-nil t.lines)) refl
          (on_write-outgoing fails s
            ∙ sym (ap (λ x. s.outgoing ++ x) (replies_to-nil split trim d) ∙ append-nil s.outgoing))
          (on_write-IsModest fails s pending) t.server.sessions e o.own;
  }

  Reach-IsServing : {t u : History} → IsServing t → Reach split trim t u → IsServing u
  Reach-IsServing o here = o
  Reach-IsServing o (next r st) = Step-IsServing st (Reach-IsServing o r)

  Answered-present :
      {i : ℕ} {s : Session} {lines written : Log}
      → Answered i (some s) lines written
      → (texts_of i written ++ s.outgoing
          ≡ (welcome ++ prompt) ∷ replies_to split trim d (texts_of i lines))
        × IsModest s
  Answered-present (absent n l w) = absurd cc
  Answered-present (present s0 e a m) =
      (cc (a, eq_of_some e), subst IsModest (sym (eq_of_some e)) m)

served-IsServing :
    (split : Text → List Text) (trim : Text → Text) (h : Handlers) {v : Server}
    → served split h ≡ some v
    → IsServing split trim v.dispatcher (begins v)
served-IsServing split trim h {v} e =
    let (table, attached, same) =
      >>=-eq-some (attach_commands split h []) (λ t. some (record make_server { dispatcher = t }))
        e in
    let same_server = eq_of_some same in
    record {
      same_table = refl;
      listening = sym (ap (λ (x : Server). x.accepts) same_server);
      own = λ i. absent (ap (λ (x : Server). get_elem? x.sessions i) (sym same_server)) refl refl;
    }

-- Whatever commands `main` has attached, through every history of the server with clients that come, write and
-- break off in any order: an accept is in hand, and the texts of each session that were written in full and those
-- still in its queue are together the welcome and then one reply for each line that this session has taken off
-- its buffer and that is not blank, in the order of the lines; at most one write of it is in hand, and only while a text
-- is queued. A line that `consume` has discarded is not among those taken.
pub each_session_alone :
    (split : Text → List Text) (trim : Text → Text) (h : Handlers) {v : Server} {t : History}
    (i : ℕ) (s : Session)
    → served split h ≡ some v
    → Reach split trim (begins v) t
    → get_elem? t.server.sessions i ≡ some s
    → (t.server.accepts ≡ 1)
      × (texts_of i t.written ++ s.outgoing
          ≡ (welcome ++ prompt) ∷ replies_to split trim v.dispatcher (texts_of i t.lines))
      × IsModest s
each_session_alone split trim h {v} {t} i s started_ r e =
    let o = Reach-IsServing split trim v.dispatcher (served-IsServing split trim h started_) r in
    let own =
      Answered-present split trim v.dispatcher
        (subst (λ x. Answered split trim v.dispatcher i x t.lines t.written) e (o.own i)) in
    (o.listening, own.0, own.1)
