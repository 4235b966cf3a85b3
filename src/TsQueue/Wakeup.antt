-- ===== src/TsQueue/Wakeup.antt =====
-- net_ts_queue.hpp: `wait` in one thread and `pushBack` in another, step by step.
-- `pushBack` holds `mutex_q_` until it has notified, and `notify_one` stands under
-- `mtx_caller_block`. `wait` tests `isEmpty` first, under `mutex_q_` alone, and takes
-- `mtx_caller_block` after that; `caller_block.wait` gives it up as it goes to sleep.
use networking_cpp_intro.Common.{◌≡◌, ◌≢◌, refl, true, false, List, [], ◌∷◌, arith}
use networking_cpp_intro.TsQueue.{is_empty, push_back}

-- Where the waiting thread stands: before the test, after a test that found the queue empty, with
-- `mtx_caller_block` taken, asleep on the condition variable, or returned from `wait`.
pub data Waiter : Type 0 where
  testing found_empty locked asleep returned : Waiter

-- The pushing thread: outside `pushBack`, or inside with the element added and nobody notified yet.
pub data Pusher : Type 0 where
  outside notifying : Pusher

-- `notify_one` sends a sleeping thread back to the test.
abbrev pub notify_one : Waiter → Waiter
notify_one asleep = testing
notify_one w = w

pub record Shared {ℓ} (A : Type ℓ) : Type ℓ where
  pub queue : List A
  pub waiter : Waiter
  pub pusher : Pusher

module _ {ℓ} {A : Type ℓ} where
  pub data Step (s : Shared A) : Shared A → Type ℓ where
    test_empty :
        s.waiter ≡ testing
        → s.pusher ≡ outside
        → is_empty s.queue ≡ true
        → Step s (record s { waiter = found_empty })
    test_filled :
        s.waiter ≡ testing
        → s.pusher ≡ outside
        → is_empty s.queue ≡ false
        → Step s (record s { waiter = returned })
    lock : s.waiter ≡ found_empty → Step s (record s { waiter = locked })
    sleep : s.waiter ≡ locked → Step s (record s { waiter = asleep })
    push :
        (x : A)
        → s.pusher ≡ outside
        → Step s (record s { queue = push_back x s.queue; pusher = notifying })
    notify :
        s.pusher ≡ notifying
        → s.waiter ≢ locked
        → Step s (record s { waiter = notify_one s.waiter; pusher = outside })
    spurious : s.waiter ≡ asleep → Step s (record s { waiter = testing })

  pub data Reach (s : Shared A) : Shared A → Type ℓ where
    here : Reach s s
    next : {t u : Shared A} → Reach s t → Step t u → Reach s u

  abbrev pub waiting_for_first : Shared A
  waiting_for_first = record { queue = []; waiter = testing; pusher = outside }

  push_back-filled : (x : A) (q : List A) → is_empty (push_back x q) ≡ false
  push_back-filled x [] = refl
  push_back-filled x (y ∷ q) = refl

  step_returned :
      {s t : Shared A}
      → Step s t
      → (s.waiter ≡ returned → is_empty s.queue ≡ false)
      → t.waiter ≡ returned
      → is_empty t.queue ≡ false
  step_returned (test_empty w p e) h r = cc
  step_returned (test_filled w p e) h r = e
  step_returned (lock w) h r = cc
  step_returned (sleep w) h r = cc
  step_returned {s} (push x p) h r = push_back-filled x s.queue
  step_returned (notify p w) h r = ground arith
  step_returned (spurious w) h r = cc

  -- While nobody else takes elements out, `wait` comes back only to a queue that holds one.
  pub wait_returns_filled :
      {t : Shared A} → Reach waiting_for_first t → t.waiter ≡ returned → is_empty t.queue ≡ false
  wait_returns_filled here r = cc
  wait_returns_filled (next h st) r = step_returned st (wait_returns_filled h) r

  -- A push that completes between the test and the lock notifies nobody: the waiting thread falls
  -- asleep beside a queue that holds the element, and no notification is on its way.
  pub lost_wakeup :
      (x : A)
      → Reach waiting_for_first (record { queue = x ∷ []; waiter = asleep; pusher = outside })
  lost_wakeup x =
      next
        (next
          (next (next (next here (test_empty refl refl refl)) (push x refl))
            (notify refl (λ e. cc)))
          (lock refl))
        (sleep refl)
