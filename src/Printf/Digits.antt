-- ===== src/Printf/Digits.antt =====
-- The digits that `printint` stores, and `atoi` on them.
use mathlib.Core.List.{reverse, reverse-cons}
use mathlib.Core.Option
use cs202_lab.Prelude.{
  ℕ, zero, suc, ◌+◌, ◌-◌, ◌*◌, ◌/◌, ◌%◌, ◌^◌, ◌<◌, ◌≤◌, ◌≡◌, ◌⊎◌, inl, inr, refl, sym, ap, ◌∙◌,
  Bool, true, false, List, [], ◌∷◌, ◌++◌, ◌==◌, ◌&&◌, slt, sub32, Option, none, some, if◌then◌else◌,
  get_or, length, all_of, u32_mod, arith, Bool-cases,
}
use cs202_lab.Strings.{Memory}
use cs202_lab.Ulib.{is_digit, atoi_from, atoi}
use cs202_lab.Printf.{lower_digits, upper_digits, keep_digit, digit_loop, with_sign, printint}

-- Ten to a power.
unfoldable bound : ℕ → ℕ
bound zero = 1
bound (suc k) = 10 * bound k

-- What the loop stores: at most `k` digits, and the rest of the room is left.
abbrev Fits : ℕ → ℕ → Option (ℕ × List ℕ) → Type 0
Fits room k none = ⊥
Fits room k (some (left, buf)) = (left + length buf ≡ room) × (length buf ≤ k)

keep_digit-Fits :
    (c room k : ℕ) (o : Option (ℕ × List ℕ))
    → Fits room k o
    → Fits (suc room) (suc k) (keep_digit c o)
keep_digit-Fits c room k none f = f
keep_digit-Fits c room k (some (left, buf)) (e, le) = (omega (arith, e), omega (arith, le))

digit_loop-Fits :
    (digits : List ℕ) (k room base x : ℕ)
    → ((y : ℕ) → 10 * (y / base) ≤ y)
    → x < bound (suc k)
    → k < room
    → Fits room (suc k) (digit_loop digits room base x)
unfolding digit_loop bound
digit_loop-Fits digits k zero base x small lt fits = absurd (omega arith)
digit_loop-Fits digits zero (suc room) base x small lt fits =
    let z : (x / base == 0) ≡ true = ground (arith, small x) in rw z (omega arith, omega arith)
digit_loop-Fits digits (suc k) (suc room) base x small lt fits = elim (Bool-cases (x / base == 0)) [
  | inl h ↦ rw h (omega arith, omega arith)
  | inr h ↦ rw h (
      keep_digit-Fits _ room (suc k) _ (
        digit_loop-Fits digits k room base (x / base) small (omega (arith, small x, lt))
          (omega arith)))
]

length-reverse : (cs : List ℕ) → length (reverse cs) ≡ length cs
length-reverse [] = refl
length-reverse (c ∷ cs) =
    ap length (reverse-cons c cs) ∙ snoc (reverse cs) c ∙ ap suc (length-reverse cs)
  where
    snoc : (xs : List ℕ) (x : ℕ) → length (xs ++ x ∷ []) ≡ suc (length xs)
    snoc [] x = refl
    snoc (y ∷ xs) x = ap suc (snoc xs x)

-- What `printint` prints, and that it is at most eleven characters.
abbrev pub Short : Option (List ℕ) → Type 0
Short none = ⊥
Short (some cs) = length cs ≤ 11

with_sign-Short :
    (neg : Bool) (o : Option (ℕ × List ℕ))
    → Fits 16 10 o
    → Short (Option.map reverse (with_sign neg o))
with_sign-Short neg none f = f
with_sign-Short false (some (left, buf)) (e, le) = omega (arith, length-reverse buf, le)
with_sign-Short true (some (zero, buf)) (e, le) = omega (arith, e, le)
with_sign-Short true (some (suc left, buf)) (e, le) =
    omega (arith, length-reverse (buf ++ 45 ∷ []), snoc buf, le)
  where
    snoc : (xs : List ℕ) → length (xs ++ 45 ∷ []) ≡ suc (length xs)
    snoc [] = refl
    snoc (y ∷ xs) = ap suc (snoc xs)

-- `printint` of any `int`, in base 10 or 16 and with or without a sign, stays inside its `buf` of 16
-- characters: it prints eleven at most.
pub printint-Short :
    (digits : List ℕ) (xx base : ℕ) (sign : Bool)
    → xx < 2 ^ 32
    → (base ≡ 10) ⊎ (base ≡ 16)
    → Short (printint digits xx base sign)
unfolding printint bound
printint-Short digits xx base sign lt b = with_sign-Short (sign && slt xx 0) _ (
    digit_loop-Fits digits 9 16 base (if sign && slt xx 0 then sub32 0 xx else xx) (small b) size
      (omega arith))
  where
    small : ((base ≡ 10) ⊎ (base ≡ 16)) → (y : ℕ) → 10 * (y / base) ≤ y
    small (inl e) y = rw e (omega arith)
    small (inr e) y = rw e (omega arith)

    size : (if sign && slt xx 0 then sub32 0 xx else xx) < bound 10
    size = let ten : bound 10 ≡ 10000000000 = refl in ground (arith, ten)

-- The number that `atoi` reads from digits, after a number `n`.
unfoldable read : ℕ → List ℕ → ℕ
read n [] = n
read n (c ∷ cs) = read ((n * 10 + c - 48) % u32_mod) cs

read-snoc : (n d : ℕ) (cs : List ℕ) → read n (cs ++ d ∷ []) ≡ (read n cs * 10 + d - 48) % u32_mod
unfolding read
read-snoc n d [] = refl
read-snoc n d (c ∷ cs) = read-snoc ((n * 10 + c - 48) % u32_mod) d cs

-- The memory holds digits, and then something else.
unfoldable pub Holds : ℕ → List ℕ → Memory → Type 0
Holds s [] m = is_digit (m s) ≡ false
Holds s (c ∷ cs) m = (m s ≡ c) × Holds (suc s) cs m

atoi-read :
    (fuel n s : ℕ) (cs : List ℕ) (m : Memory)
    → all_of is_digit cs ≡ true
    → Holds s cs m
    → length cs < fuel
    → atoi_from fuel n s m ≡ some (read n cs)
unfolding atoi_from read Holds
atoi-read zero n s cs m d h lt = absurd (omega arith)
atoi-read (suc fuel) n s [] m d h lt = rw h refl
atoi-read (suc fuel) n s (c ∷ cs) m d (h, hs) lt =
    let first : is_digit c ≡ true = ground arith in
    let rest : all_of is_digit cs ≡ true = ground arith in
    rw (h, first) (atoi-read fuel _ (suc s) cs m rest hs (omega arith))

-- What the loop stores of a number below 2^32 reads as this number.
abbrev Reads : ℕ → Option (ℕ × List ℕ) → Type 0
Reads x none = x ≡ x
Reads x (some (room, buf)) = (read 0 (reverse buf) ≡ x) × (all_of is_digit (reverse buf) ≡ true)

all_of-snoc :
    (c : ℕ) (cs : List ℕ)
    → all_of is_digit cs ≡ true
    → is_digit c ≡ true
    → all_of is_digit (cs ++ c ∷ []) ≡ true
all_of-snoc c [] h g = rw g refl
all_of-snoc c (x ∷ cs) h g =
    let first : is_digit x ≡ true = ground arith in
    let rest : all_of is_digit cs ≡ true = ground arith in rw first (all_of-snoc c cs rest g)

-- `n` characters in a row from `c` on.
abbrev run_of : ℕ → ℕ → List ℕ
run_of c zero = []
run_of c (suc n) = c ∷ run_of (suc c) n

get_or-run_of : (c n d : ℕ) (rest : List ℕ) → d < n → get_or (run_of c n ++ rest) d 0 ≡ c + d
get_or-run_of c zero d rest lt = absurd (omega arith)
get_or-run_of c (suc n) zero rest lt = omega arith
get_or-run_of c (suc n) (suc d) rest lt = get_or-run_of (suc c) n d rest (omega arith) ∙ omega arith

digit_at : (d : ℕ) → d < 10 → get_or upper_digits d 0 ≡ 48 + d
digit_at d lt = get_or-run_of 48 10 d (65 ∷ 66 ∷ 67 ∷ 68 ∷ 69 ∷ 70 ∷ []) lt

pub same_digit : (d : ℕ) → d < 10 → get_or lower_digits d 0 ≡ get_or upper_digits d 0
same_digit d lt =
    get_or-run_of 48 10 d (97 ∷ 98 ∷ 99 ∷ 100 ∷ 101 ∷ 102 ∷ []) lt ∙ sym (digit_at d lt)

one_more-Reads :
    (x : ℕ) (o : Option (ℕ × List ℕ))
    → x < 2 ^ 32
    → Reads (x / 10) o
    → Reads x (keep_digit (get_or upper_digits (x % 10) 0) o)
one_more-Reads x none lt r = refl
one_more-Reads x (some (room, buf)) lt (e, d) =
    let digit = digit_at (x % 10) (omega arith) in
    let c = get_or upper_digits (x % 10) 0 in
    let is : is_digit c ≡ true = ground (arith, digit) in
    (
      ap (read 0) (reverse-cons c buf) ∙ read-snoc 0 c (reverse buf) ∙ rw (e, digit) (omega arith),
      ap (all_of is_digit) (reverse-cons c buf) ∙ all_of-snoc c (reverse buf) d is,
    )

digit_loop-Reads : (room x : ℕ) → x < 2 ^ 32 → Reads x (digit_loop upper_digits room 10 x)
unfolding digit_loop read
digit_loop-Reads zero x lt = refl
digit_loop-Reads (suc room) x lt = elim (Bool-cases (x / 10 == 0)) [
  | inl h ↦
      let digit = digit_at (x % 10) (omega arith) in
      rw h (rw digit (ground arith), rw digit (ground arith))
  | inr h ↦ rw h (one_more-Reads x _ lt (digit_loop-Reads room (x / 10) (omega arith)))
]

-- What `printint` of the user library prints in decimal of an `int` that is not negative, or of any
-- `uint`, is read back by `atoi`, where something that is no digit follows.
pub atoi-printint :
    (xx fuel s : ℕ) (sign : Bool) (cs : List ℕ) (m : Memory)
    → xx < 2 ^ 32
    → (sign && slt xx 0) ≡ false
    → printint upper_digits xx 10 sign ≡ some cs
    → Holds s cs m
    → length cs < fuel
    → atoi fuel s m ≡ some xx
unfolding printint atoi
atoi-printint xx fuel s sign cs m lt pos run h less =
    from (digit_loop upper_digits 16 10 xx) (digit_loop-Reads 16 xx lt) (rw pos at run)
  where
    from :
        (o : Option (ℕ × List ℕ))
        → Reads xx o
        → Option.map reverse (with_sign false o) ≡ some cs
        → atoi_from fuel 0 s m ≡ some xx
    from none r e = absurd (ground arith)
    from (some (room, buf)) (r, d) e =
        let same : reverse buf ≡ cs = ground (arith, e) in
        let d' = rw same at d in
        let r' = rw same at r in atoi-read fuel 0 s cs m d' h less ∙ ap some r'
