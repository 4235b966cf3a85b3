-- ===== src/MainClient/Tests.antt =====
-- Runs of the client.
use networking_cpp_intro.Common.{ℕ, refl, true, false, List, [], ◌∷◌, arith}
use networking_cpp_intro.MainClient.{
  Program, new_program, on_read, on_connect, connects, writes, read_done,
}
use networking_cpp_intro.MainClient.Arrivals.{IsShowing, Reach, here, next, program-IsShowing}

-- Two bytes come before the request is written, one after it, and the next read fails.
page_run : (came : List ℕ) × (p : Program) × Reach new_program came p
unfolding on_read on_connect
page_run = (
  _,
  _,
  next
      (next
        (next
          (next (next here (connects false refl))
            (read_done false (72 ∷ 84 ∷ []) refl (omega arith)))
          (writes 66 refl (omega arith)))
        (read_done false (80 ∷ []) refl (omega arith)))
      (read_done true [] refl (omega arith)),
)

program-IsShowing_example : IsShowing page_run.0 page_run.1
program-IsShowing_example = program-IsShowing page_run.2
