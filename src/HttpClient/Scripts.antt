-- ===== src/HttpClient/Scripts.antt =====
-- other_ressources/boost_beast/src/simple_http_get_client.cpp and simple_websocket_client.cpp: one call after the
-- other, and any exception ends the program with an error.
use networking_cpp_intro.Common.{
  ℕ, ◌==◌, ◌≡◌, ◌⊎◌, inl, inr, refl, if◌then◌else◌, Bool, true, false, ◌||◌, List, [], ◌∷◌, ◌++◌,
  Text, arith,
}

-- The calls that throw where they fail. That of the resolver takes an error code, which is not looked at.
pub data Call : Type 0 where
  connect handshake write read close : Call

pub data Line : Type 0 where
  usage finished closed : Line
  answer : Text → Line
  error : Call → Line

pub record Outcome : Type 0 where
  pub exit_code : ℕ
  pub shown : List Line

module _ (throws : Call → Bool) (received : Text) where
  -- The calls of a `try` block, each with what is printed after it.
  abbrev pub try_calls : List (Call × List Line) → Outcome
  try_calls [] = record { exit_code = 0; shown = finished ∷ [] }
  try_calls ((call, lines) ∷ more) =
      let rest = try_calls more in
      if throws call
      then record { exit_code = 1; shown = error call ∷ [] }
      else record rest { shown = lines ++ rest.shown }

  -- `main` of the HTTP client. The shutdown takes an error code.
  unfoldable pub get_main : ℕ → Outcome
  get_main argc =
      if argc == 4
      then try_calls ((connect, []) ∷ (write, []) ∷ (read, answer received ∷ []) ∷ [])
      else record { exit_code = 1; shown = usage ∷ [] }

  -- `main` of the WebSocket client.
  unfoldable pub websocket_main : ℕ → Outcome
  websocket_main argc =
      if argc == 4
      then try_calls (
          (connect, [])
          ∷ (handshake, [])
          ∷ (write, [])
          ∷ (read, [])
          ∷ (close, closed ∷ answer received ∷ [])
          ∷ [])
      else record { exit_code = 1; shown = usage ∷ [] }

  -- The HTTP client reports success exactly if it prints the answer, and otherwise prints one line.
  pub get_answer_or_error :
      (argc : ℕ)
      → let end_ = get_main argc in
        ((end_.exit_code ≡ 0) × (end_.shown ≡ answer received ∷ finished ∷ []))
        ⊎ ((end_.exit_code ≡ 1) × ((l : Line) × (end_.shown ≡ l ∷ [])))
  unfolding get_main
  get_answer_or_error argc = go (argc == 4) (throws connect) (throws write) (throws read)
    where
      go :
          (args c w r : Bool)
          → let end_ : Outcome =
              if args
              then if c
                then record { exit_code = 1; shown = error connect ∷ [] }
                else if w
                then record { exit_code = 1; shown = error write ∷ [] }
                else if r
                then record { exit_code = 1; shown = error read ∷ [] }
                else record { exit_code = 0; shown = answer received ∷ finished ∷ [] }
              else record { exit_code = 1; shown = usage ∷ [] } in
            ((end_.exit_code ≡ 0) × (end_.shown ≡ answer received ∷ finished ∷ []))
            ⊎ ((end_.exit_code ≡ 1) × ((l : Line) × (end_.shown ≡ l ∷ [])))
      go false c w r = inr (refl, (_, refl))
      go true true w r = inr (refl, (_, refl))
      go true false true r = inr (refl, (_, refl))
      go true false false true = inr (refl, (_, refl))
      go true false false false = inl (refl, refl)

  -- Where all calls of the WebSocket client succeed but the last, the answer has been read and is not printed.
  pub close_hides_answer :
      (throws connect || (throws handshake || (throws write || throws read))) ≡ false
      → throws close ≡ true
      → (websocket_main 4).shown ≡ error close ∷ []
  unfolding websocket_main
  close_hides_answer others fails = ground arith
