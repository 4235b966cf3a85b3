-- ===== src/Message/Tests.antt =====
-- Runs of the message operators, among them that of tests/test_serialization.cpp: a float 5.5, a
-- bool and an int.
use networking_cpp_intro.Common.{ℕ, ◌≡◌, refl, List, [], ◌∷◌, some, arith, length, reverse, map}
use networking_cpp_intro.Message.{empty_message, size, push, pull}
use networking_cpp_intro.Message.Laws.{IsValid}
use networking_cpp_intro.Message.RoundTrip.{push_all, pull_all, pull_all-push_all}

abbrev float_5_5 : List ℕ
float_5_5 = 0 ∷ 0 ∷ 0xb0 ∷ 0x40 ∷ []

abbrev bool_true : List ℕ
bool_true = 1 ∷ []

abbrev int_3 : List ℕ
int_3 = 3 ∷ 0 ∷ 0 ∷ 0 ∷ []

abbrev sample : List (List ℕ)
sample = float_5_5 ∷ bool_true ∷ int_3 ∷ []

empty-IsValid : IsValid (empty_message 0)
empty-IsValid = omega arith

-- Five elements, twenty bytes, for a value of five bytes.
size-sample : size (push_all (empty_message 0) sample) ≡ 9
unfolding push_all push
size-sample = refl

sample_run :
    pull_all (push_all (empty_message 0) sample) (4 ∷ 1 ∷ 4 ∷ [])
    ≡ some (int_3 ∷ bool_true ∷ float_5_5 ∷ [], empty_message 0)
unfolding push_all pull_all push pull
sample_run = refl

pull_all-push_all_example :
    pull_all (push_all (empty_message 0) sample) (reverse (map length sample))
    ≡ some (reverse sample, empty_message 0)
pull_all-push_all_example = pull_all-push_all sample (empty_message 0) empty-IsValid (omega arith)
