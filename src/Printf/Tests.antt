-- ===== src/Printf/Tests.antt =====
-- The theorems on formatted output at concrete calls.
use cs202_lab.Prelude.{ℕ, ◌^◌, ◌≡◌, inr, refl, true, false, List, [], ◌∷◌, some, get_or, arith, ◌-◌}
use cs202_lab.Strings.{Memory}
use cs202_lab.Ulib.{atoi}
use cs202_lab.Printf.{lower_digits, upper_digits, digit_loop, printint, kernel_printf, vprintf, Arg}
use cs202_lab.Printf.Digits.{Short, Holds, printint-Short, atoi-printint}
use cs202_lab.Printf.Agree.{is_common_format, vprintf-kernel_printf}

-- The least `int`: "-2147483648".
printint_run :
    printint upper_digits (2 ^ 31) 10 true
    ≡ some (45 ∷ 50 ∷ 49 ∷ 52 ∷ 55 ∷ 52 ∷ 56 ∷ 51 ∷ 54 ∷ 52 ∷ 56 ∷ [])
unfolding printint digit_loop
printint_run = refl

printint-Short_example : Short (printint lower_digits (2 ^ 32 - 1) 16 true)
printint-Short_example = printint-Short lower_digits (2 ^ 32 - 1) 16 true (omega arith) (inr refl)

-- "407" from 5 on, and then a blank.
abbrev digits_page : Memory
digits_page a = get_or (0 ∷ 0 ∷ 0 ∷ 0 ∷ 0 ∷ 52 ∷ 48 ∷ 55 ∷ 32 ∷ []) a 0

decimal_run : printint upper_digits 407 10 true ≡ some (52 ∷ 48 ∷ 55 ∷ [])
unfolding printint digit_loop
decimal_run = refl

digits_page-Holds : Holds 5 (52 ∷ 48 ∷ 55 ∷ []) digits_page
unfolding Holds
digits_page-Holds = (refl, (refl, (refl, refl)))

atoi-printint_example : atoi 9 5 digits_page ≡ some 407
atoi-printint_example =
    atoi-printint 407 9 5 true (52 ∷ 48 ∷ 55 ∷ []) digits_page (omega arith) refl decimal_run
      digits_page-Holds (omega arith)

-- "%d%%", of 407
abbrev format : List ℕ
format = 37 ∷ 100 ∷ 37 ∷ 37 ∷ []

format_common : is_common_format false format ≡ true
unfolding is_common_format
format_common = refl

vprintf-kernel_printf_example :
    vprintf false format (Arg.word 407 ∷ []) ≡ kernel_printf format (Arg.word 407 ∷ [])
vprintf-kernel_printf_example = vprintf-kernel_printf format (Arg.word 407 ∷ []) format_common

-- "%l" of 2^32 prints "0".
long_run : vprintf false (37 ∷ 108 ∷ []) (Arg.word (2 ^ 32) ∷ []) ≡ some (48 ∷ [])
unfolding vprintf printint digit_loop
long_run = refl
