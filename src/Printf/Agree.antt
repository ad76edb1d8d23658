-- ===== src/Printf/Agree.antt =====
-- The `printf` of the kernel beside the `vprintf` of user programs.
use cs202_lab.Prelude.{
  ℕ, zero, suc, ◌%◌, ◌/◌, ◌≡◌, refl, ap, Bool, true, false, List, [], ◌∷◌, ◌==◌, ◌&&◌, ◌||◌, not,
  Option, none, some, if◌then◌else◌, arith, Bool-cases, inl, inr, slt, sub32, u32_mod,
}
use cs202_lab.Printf.{
  lower_digits, upper_digits, digit_loop, printint, kernel_directive, user_directive, print_first,
  go_on, kernel_printf, vprintf, Arg, word_arg,
}
use cs202_lab.Printf.Digits.{same_digit}

digits_agree : (room x : ℕ) → digit_loop lower_digits room 10 x ≡ digit_loop upper_digits room 10 x
unfolding digit_loop
digits_agree zero x = refl
digits_agree (suc room) x = rw (same_digit (x % 10) (omega arith), digits_agree room (x / 10)) refl

pub printint_agree :
    (xx : ℕ) (sign : Bool) → printint lower_digits xx 10 sign ≡ printint upper_digits xx 10 sign
unfolding printint
printint_agree xx sign = rw (digits_agree 16 (if sign && slt xx 0 then sub32 0 xx else xx)) refl

-- The directives that mean the same to both: all but %x, %p, %l and %c.
abbrev pub is_common : ℕ → Bool
is_common c = not (c == 120 || c == 112 || c == 108 || c == 99)

decimals_agree :
    (args : List Arg)
    → word_arg (λ w. printint lower_digits (w % u32_mod) 10 true) args
      ≡ word_arg (λ w. printint upper_digits (w % u32_mod) 10 true) args
decimals_agree [] = refl
decimals_agree (Arg.word w ∷ args) = rw (printint_agree (w % u32_mod) true) refl
decimals_agree (Arg.text t ∷ args) = refl

directives_agree :
    (c : ℕ) (args : List Arg) → is_common c ≡ true → kernel_directive c args ≡ user_directive c args
directives_agree c args h =
    let not_x : (c == 120) ≡ false = ground arith in
    let not_p : (c == 112) ≡ false = ground arith in
    let not_l : (c == 108) ≡ false = ground arith in
    let not_c : (c == 99) ≡ false = ground arith in
    rw (not_x, not_p, not_l, not_c)
      (elim (Bool-cases (c == 100)) [ inl d ↦ rw d (decimals_agree args) | inr d ↦ rw d refl ])

-- A format whose directives are all of these; `state` as in `vprintf`.
unfoldable pub is_common_format : Bool → List ℕ → Bool
is_common_format state [] = true
is_common_format false (c ∷ fmt) = is_common_format (c == 37) fmt
is_common_format true (c ∷ fmt) = is_common c && is_common_format false fmt

go_on_same :
    (f g : List Arg → Option (List ℕ)) (r : Option (List ℕ × List Arg))
    → ((args : List Arg) → f args ≡ g args)
    → go_on f r ≡ go_on g r
go_on_same f g none h = refl
go_on_same f g (some (cs, args)) h = rw (h args) refl

-- For a format without %x, %p, %l and %c, the kernel's `printf` and the `vprintf` of user programs
-- print the same, whatever the arguments, and fail for the same ones.
pub vprintf-kernel_printf :
    (fmt : List ℕ) (args : List Arg)
    → is_common_format false fmt ≡ true
    → vprintf false fmt args ≡ kernel_printf fmt args
unfolding vprintf kernel_printf is_common_format
vprintf-kernel_printf [] args h = refl
vprintf-kernel_printf (c ∷ []) args h = elim (Bool-cases (c == 37)) [
  | inl e ↦ rw e refl
  | inr e ↦ rw e refl
]
vprintf-kernel_printf (c ∷ d ∷ fmt) args h =
    let now : is_common_format (c == 37) (d ∷ fmt) ≡ true = h in
    elim (Bool-cases (c == 37)) [
      | inl e ↦
          let h' : is_common_format true (d ∷ fmt) ≡ true = rw e at now in
          let common : is_common d ≡ true = ground arith in
          let later : is_common_format false fmt ≡ true = ground arith in
          rw (e, directives_agree d args common)
            (go_on_same (vprintf false fmt) (kernel_printf fmt) (user_directive d args)
              (λ args'. vprintf-kernel_printf fmt args' later))
      | inr e ↦
          rw e (ap (print_first (c ∷ [])) (vprintf-kernel_printf (d ∷ fmt) args (rw e at now)))
    ]
