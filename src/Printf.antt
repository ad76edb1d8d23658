-- ===== src/Printf.antt =====
-- Formatted output: `printint`, `printptr` and `printf` of kernel/printf.c, and the same of
-- user/printf.c, where `vprintf` does the work. What a call prints is a list of characters. `none` is
-- a write past the end of `buf`, or an argument that is missing or of another kind than its directive.
pub mod Digits
pub mod Agree
mod Tests
use mathlib.Core.Option
use mathlib.Core.List.{reverse}
use cs202_lab.Prelude.{
  ℕ, zero, suc, ◌+◌, ◌*◌, ◌/◌, ◌%◌, ◌^◌, Bool, true, false, List, [], ◌∷◌, ◌++◌, ◌==◌, ◌&&◌, slt,
  sub32, Option, none, some, if◌then◌else◌, get_or, u32_mod,
}

-- The two tables `digits`.
abbrev pub lower_digits : List ℕ
lower_digits = 48 ∷ 49 ∷ 50 ∷ 51 ∷ 52 ∷ 53 ∷ 54 ∷ 55 ∷ 56 ∷ 57 ∷ 97 ∷ 98 ∷ 99 ∷ 100 ∷ 101 ∷ 102 ∷ []

abbrev pub upper_digits : List ℕ
upper_digits = 48 ∷ 49 ∷ 50 ∷ 51 ∷ 52 ∷ 53 ∷ 54 ∷ 55 ∷ 56 ∷ 57 ∷ 65 ∷ 66 ∷ 67 ∷ 68 ∷ 69 ∷ 70 ∷ []

-- The first loop of `printint`, where `buf` has room for `room` more: what it stores, and the room
-- left.
abbrev pub keep_digit : ℕ → Option (ℕ × List ℕ) → Option (ℕ × List ℕ)
keep_digit c none = none
keep_digit c (some (room, buf)) = some (room, c ∷ buf)

unfoldable pub digit_loop : List ℕ → ℕ → ℕ → ℕ → Option (ℕ × List ℕ)
digit_loop digits zero base x = none
digit_loop digits (suc room) base x =
    let rest = digit_loop digits room base (x / base) in
    if x / base == 0
    then some (room, get_or digits (x % base) 0 ∷ [])
    else keep_digit (get_or digits (x % base) 0) rest

-- The sign, at the end of `buf`.
abbrev pub with_sign : Bool → Option (ℕ × List ℕ) → Option (List ℕ)
with_sign neg none = none
with_sign false (some (room, buf)) = some buf
with_sign true (some (zero, buf)) = none
with_sign true (some (suc room, buf)) = some (buf ++ 45 ∷ [])

-- `printint`, with the `int` as its bit pattern.
unfoldable pub printint : List ℕ → ℕ → ℕ → Bool → Option (List ℕ)
unfolding digit_loop
printint digits xx base sign =
    let neg = sign && slt xx 0 in
    let x = if neg then sub32 0 xx else xx in
    Option.map reverse (with_sign neg (digit_loop digits 16 base x))

-- `printptr`
unfoldable pub ptr_loop : List ℕ → ℕ → ℕ → List ℕ
ptr_loop digits zero x = []
ptr_loop digits (suc n) x = get_or digits (x / 2 ^ 60) 0 ∷ ptr_loop digits n (x * 16 % 2 ^ 64)

abbrev pub printptr : List ℕ → ℕ → List ℕ
printptr digits x = 48 ∷ 120 ∷ ptr_loop digits 16 x

-- The same of user/printf.c, with its own table.
abbrev pub user_printint : ℕ → ℕ → Bool → Option (List ℕ)
user_printint xx base sgn = printint upper_digits xx base sgn

abbrev pub user_printptr : ℕ → List ℕ
user_printptr x = printptr upper_digits x

-- What a caller passes on: a 64-bit register, or a string, where the null pointer is `none`.
pub data Arg : Type 0 where
  word : ℕ → Arg
  text : Option (List ℕ) → Arg

-- "(null)"
abbrev pub null_text : List ℕ
null_text = 40 ∷ 110 ∷ 117 ∷ 108 ∷ 108 ∷ 41 ∷ []

abbrev pub print_text : Option (List ℕ) → List ℕ
print_text none = null_text
print_text (some cs) = cs

-- `va_arg`, and what is printed of it.
abbrev pub word_arg : (ℕ → Option (List ℕ)) → List Arg → Option (List ℕ × List Arg)
word_arg show [] = none
word_arg show (Arg.word w ∷ rest) = Option.map (λ cs. (cs, rest)) (show w)
word_arg show (Arg.text t ∷ rest) = none

abbrev pub text_arg : List Arg → Option (List ℕ × List Arg)
text_arg [] = none
text_arg (Arg.word w ∷ rest) = none
text_arg (Arg.text t ∷ rest) = some (print_text t, rest)

-- One directive of the kernel's `printf`, by the character behind the `%`.
abbrev pub kernel_directive : ℕ → List Arg → Option (List ℕ × List Arg)
kernel_directive c ap =
    if c == 100
    then word_arg (λ w. printint lower_digits (w % u32_mod) 10 true) ap
    else if c == 120
    then word_arg (λ w. printint lower_digits (w % u32_mod) 16 true) ap
    else if c == 112
    then word_arg (λ w. some (printptr lower_digits (w % 2 ^ 64))) ap
    else if c == 115
    then text_arg ap
    else if c == 37
    then some (37 ∷ [], ap)
    else some (37 ∷ c ∷ [], ap)

-- And of the user's `vprintf`.
abbrev pub user_directive : ℕ → List Arg → Option (List ℕ × List Arg)
user_directive c ap =
    if c == 100
    then word_arg (λ w. user_printint (w % u32_mod) 10 true) ap
    else if c == 108
    then word_arg (λ w. user_printint (w % u32_mod) 10 false) ap
    else if c == 120
    then word_arg (λ w. user_printint (w % u32_mod) 16 false) ap
    else if c == 112
    then word_arg (λ w. some (user_printptr (w % 2 ^ 64))) ap
    else if c == 115
    then text_arg ap
    else if c == 99
    then word_arg (λ w. some (w % 256 ∷ [])) ap
    else if c == 37
    then some (37 ∷ [], ap)
    else some (37 ∷ c ∷ [], ap)

-- What is printed before the rest of the output.
abbrev pub print_first : List ℕ → Option (List ℕ) → Option (List ℕ)
print_first cs none = none
print_first cs (some out) = some (cs ++ out)

abbrev pub go_on : (List Arg → Option (List ℕ)) → Option (List ℕ × List Arg) → Option (List ℕ)
go_on more none = none
go_on more (some (cs, ap)) = print_first cs (more ap)

-- `printf` of the kernel on a format that is not null.
unfoldable pub kernel_printf : List ℕ → List Arg → Option (List ℕ)
kernel_printf [] ap = some []
kernel_printf (c ∷ []) ap = if c == 37 then some [] else some (c ∷ [])
kernel_printf (c ∷ d ∷ fmt) ap =
    if c == 37
    then go_on (kernel_printf fmt) (kernel_directive d ap)
    else print_first (c ∷ []) (kernel_printf (d ∷ fmt) ap)

-- `vprintf` of the user library, with its `state`: whether the last character was a `%`.
unfoldable pub vprintf : Bool → List ℕ → List Arg → Option (List ℕ)
vprintf state [] ap = some []
vprintf false (c ∷ fmt) ap =
    let plain = print_first (c ∷ []) (vprintf false fmt ap) in
    let directive = vprintf true fmt ap in if c == 37 then directive else plain
vprintf true (c ∷ fmt) ap = go_on (vprintf false fmt) (user_directive c ap)
