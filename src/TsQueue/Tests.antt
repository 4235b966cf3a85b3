-- ===== src/TsQueue/Tests.antt =====
-- Runs of the queue.
use networking_cpp_intro.Common.{ℕ, refl, [], ◌∷◌}
use networking_cpp_intro.TsQueue.Wakeup.{
  Shared, Reach, here, next, push, notify, test_filled, asleep, returned, outside,
  waiting_for_first, lost_wakeup,
}

-- The element is there before the test.
abbrev served : Shared ℕ
served = record { queue = 5 ∷ []; waiter = returned; pusher = outside }

in_time : Reach waiting_for_first served
in_time = next (next (next here (push 5 refl)) (notify refl (λ e. cc))) (test_filled refl refl refl)

lost_wakeup_example : Reach waiting_for_first (record served { waiter = asleep })
lost_wakeup_example = lost_wakeup 5
