-- ===== src/HttpServer/Sessions.antt =====
-- async_http_server.cpp: `Session`. One read or one write is in hand at a time. `handle` is
-- `handle_request` on the session's root, and `need_eof`, of Boost.Beast, is a parameter.
use networking_cpp_intro.Common.{
  ◌≡◌, refl, ap, if◌then◌else◌, Bool, true, false, List, [], ◌∷◌, ◌++◌, append-nil, map, Option,
  none, some, arith,
}
use networking_cpp_intro.HttpServer.{Request, Response}

-- `sent` are the answers written in full, and `served` the requests that were read.
pub record Session : Type 0 where
  pub reading : Bool
  pub writing : Option Response
  pub shut_down : Bool
  pub sent : List Response
  pub served : List Request

pub data ReadResult : Type 0 where
  end_of_stream read_error : ReadResult
  received : Request → ReadResult

-- The constructor and `run`, which starts `do_read`.
abbrev pub running : Session
running = record { reading = true; writing = none; shut_down = false; sent = []; served = [] }

unfoldable pub do_read : Session → Session
do_read s = record s { reading = true }

unfoldable pub do_close : Session → Session
do_close s = record s { shut_down = true }

-- `on_read`, with the call of `lambda_` that starts the write.
unfoldable pub on_read : (Request → Response) → ReadResult → Session → Session
unfolding do_close
on_read handle end_of_stream s = do_close (record s { reading = false })
on_read handle read_error s = record s { reading = false }
on_read handle (received req) s = record s {
  reading = false;
  writing = some (handle req);
  served = s.served ++ req ∷ [];
}

unfoldable pub on_write : Bool → Bool → Response → Session → Session
unfolding do_close do_read
on_write close failed response s =
    let s' = record s { writing = none } in
    let done = record s' { sent = s.sent ++ response ∷ [] } in
    if failed then s' else if close then do_close done else do_read done

module _ (handle : Request → Response) (need_eof : Response → Bool) where
  pub data Step (s : Session) : Session → Type 0 where
    read_done : (result : ReadResult) → s.reading ≡ true → Step s (on_read handle result s)
    write_done :
        (failed : Bool) (response : Response)
        → s.writing ≡ some response
        → Step s (on_write (need_eof response) failed response s)

  pub data Reach (s : Session) : Session → Type 0 where
    here : Reach s s
    next : {t u : Session} → Reach s t → Step t u → Reach s u

  -- Where an answer is being written it is the last request's; where a request is being read all are
  -- answered; where the socket is shut down neither happens.
  pub record IsInOrder (s : Session) : Type 0 where
    pub prefix : (lost : List Response) × (s.sent ++ lost ≡ map handle s.served)
    pub all_answered : s.reading ≡ true → (s.writing ≡ none) × (s.sent ≡ map handle s.served)
    pub last_answer :
        (r : Response)
        → s.writing ≡ some r
        → (s.reading ≡ false) × (s.sent ++ r ∷ [] ≡ map handle s.served)
    pub over : s.shut_down ≡ true → (s.reading ≡ false) × (s.writing ≡ none)

  map-snoc :
      (qs : List Request) (q : Request) → map handle (qs ++ q ∷ []) ≡ map handle qs ++ handle q ∷ []
  map-snoc [] q = refl
  map-snoc (x ∷ qs) q = ap (λ rs. handle x ∷ rs) (map-snoc qs q)

  on_read-IsInOrder :
      (result : ReadResult) (s : Session)
      → s.reading ≡ true
      → IsInOrder s
      → IsInOrder (on_read handle result s)
  unfolding on_read
  on_read-IsInOrder end_of_stream s r o = record {
    prefix = o.prefix;
    all_answered = λ h. cc;
    last_answer = λ a h. ground (arith, o.all_answered r);
    over = λ h. (refl, (o.all_answered r).0);
  }
  on_read-IsInOrder read_error s r o = record {
    prefix = o.prefix;
    all_answered = λ h. cc;
    last_answer = λ a h. ground (arith, o.all_answered r);
    over = λ h. (refl, (o.all_answered r).0);
  }
  on_read-IsInOrder (received req) s r o =
      let (idle, answered) = o.all_answered r in
      let grown : s.sent ++ handle req ∷ [] ≡ map handle (s.served ++ req ∷ []) =
        ground (arith, map-snoc s.served req) in
      record {
        prefix = (handle req ∷ [], grown);
        all_answered = λ h. cc;
        last_answer = λ a h. ground arith;
        over = λ h. absurd (ground (arith, o.over));
      }

  on_write-IsInOrder :
      (failed : Bool) (response : Response) (s : Session)
      → s.writing ≡ some response
      → IsInOrder s
      → IsInOrder (on_write (need_eof response) failed response s)
  unfolding on_write
  on_write-IsInOrder true response s w o = record {
    prefix = o.prefix;
    all_answered = λ h. absurd (ground (arith, o.last_answer response w));
    last_answer = λ a h. cc;
    over = λ h. ground (arith, o.over);
  }
  on_write-IsInOrder false response s w o =
      let (quiet, grown) = o.last_answer response w in
      record {
        prefix = ([], ground (arith, append-nil (s.sent ++ response ∷ [])));
        all_answered = λ h. ground arith;
        last_answer = λ a h. absurd (ground arith);
        over = λ h. ground (arith, o.over);
      }

  -- Through every history of a session the answers written are those of the requests read, in their
  -- order, but for a last one that failed or is under way; no request is read before the one before it
  -- is answered, and none once the socket is shut down.
  pub session-IsInOrder : {s : Session} → Reach running s → IsInOrder s
  session-IsInOrder here = record {
    prefix = ([], refl);
    all_answered = λ h. (refl, refl);
    last_answer = λ a h. cc;
    over = λ h. cc;
  }
  session-IsInOrder (next r (read_done result h)) =
      on_read-IsInOrder result _ h (session-IsInOrder r)
  session-IsInOrder (next r (write_done failed a h)) =
      on_write-IsInOrder failed a _ h (session-IsInOrder r)
