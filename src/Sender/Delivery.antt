-- ===== src/Sender/Delivery.antt =====
-- send_recursive_not_recommend.cpp: `send` ends and delivers the whole message.
use networking_cpp_intro.Common.{
  ℕ, ◌≤◌, ◌<◌, min, ◌≡◌, ◌≢◌, refl, ap, ◌∙◌, Bool, true, false, List, [], ◌∷◌, ◌++◌, append-nil,
  append_assoc, length, take, drop, length-drop, take-append-drop, take_of_le, All, arith, inl, inr,
  le_or_lt,
}
use networking_cpp_intro.Sender.{
  Next, delivered, send_error, sending, on_send, Outcome, after, send,
}

-- Each `async_send` succeeds and the socket takes a byte or more.
abbrev pub Progresses : Bool × ℕ → Type 0
Progresses (fails, room) = (fails ≡ false) × (1 ≤ room)

-- What is left to send.
abbrev pub left_over : Next → List ℕ
left_over delivered = []
left_over send_error = []
left_over (sending rest) = rest

on_send_last : (n : ℕ) (data_ : List ℕ) → length data_ ≤ n → on_send false n data_ ≡ delivered
unfolding on_send
on_send_last n data_ h = ground (arith, length-drop n data_)

on_send_more :
    (n : ℕ) (data_ : List ℕ) → n < length data_ → on_send false n data_ ≡ sending (drop n data_)
unfolding on_send
on_send_more n data_ h = ground (arith, length-drop n data_)

send_last :
    (room : ℕ) (completions : List (Bool × ℕ)) (message : List ℕ)
    → length message ≤ room
    → send ((false, room) ∷ completions) message ≡ record { taken = message; stands = delivered }
unfolding send
send_last room completions message h =
    let n = min room (length message) in
    ground (arith, on_send_last n message (ground arith), take_of_le n message (ground arith))

send_more :
    (room : ℕ) (completions : List (Bool × ℕ)) (message : List ℕ)
    → room < length message
    → send ((false, room) ∷ completions) message
      ≡ after (take room message) (send completions (drop room message))
unfolding send
send_more room completions message h =
    let least : min room (length message) ≡ room = ground arith in
    grind (arith, on_send_more room message h, least)

-- If each `async_send` succeeds and takes a byte or more, then after as many of them as the message
-- has bytes, and at least one, `send` has come to its end: the message is delivered, and what the socket
-- took is the whole message in its order.
pub send_delivers :
    (completions : List (Bool × ℕ)) (message : List ℕ)
    → All Progresses completions
    → 1 ≤ length completions
    → length message ≤ length completions
    → send completions message ≡ record { taken = message; stands = delivered }
unfolding send
send_delivers [] message ps some_ enough = absurd (omega arith)
send_delivers ((true, room) ∷ completions) message (p, ps) some_ enough = absurd cc
send_delivers ((false, room) ∷ completions) message (p, ps) some_ enough =
    elim (le_or_lt (length message) room) [
      | inl last ↦ send_last room completions message last
      | inr more ↦
          let left = length-drop room message in
          let rest =
            send_delivers completions (drop room message) ps (omega (arith, p.1, left))
              (omega (arith, p.1, left)) in
          cc (send_more room completions message more, rest, take-append-drop room message)
    ]

-- Whatever completes, with errors or not: what the socket took and what is left to send are together
-- the whole message in its order, unless a send has failed; so a message that is reported as
-- delivered has been taken whole.
pub taken_in_order :
    (completions : List (Bool × ℕ)) (message : List ℕ)
    → let o = send completions message in
      o.stands ≢ send_error → o.taken ++ left_over o.stands ≡ message
unfolding send on_send
taken_in_order [] message fine = refl
taken_in_order ((true, room) ∷ completions) message fine = absurd (fine refl)
taken_in_order ((false, room) ∷ completions) message fine = elim (le_or_lt (length message) room) [
  | inl last ↦ cc (send_last room completions message last, append-nil message)
  | inr more ↦
      let step = send_more room completions message more in
      let o = send completions (drop room message) in
      let rest =
        taken_in_order completions (drop room message)
          (λ q. fine (ap (λ (x : Outcome). x.stands) step ∙ q)) in
      cc (
        step,
        rest,
        take-append-drop room message,
        append_assoc (take room message) o.taken (left_over o.stands),
      )
]
