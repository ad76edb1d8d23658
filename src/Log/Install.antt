-- ===== src/Log/Install.antt =====
-- What `write_log` and `install_trans` write, and where.
use cs202_lab.Prelude.{
  ℕ, zero, suc, ◌+◌, ◌<◌, ◌≤◌, ◌≡◌, ◌≢◌, refl, Bool, true, false, List, [], ◌∷◌, ◌==◌, ◌||◌, ltb,
  if◌then◌else◌, arith, length, all_of, any_of, take, ap, ap₂, ◌∙◌, sym, Bool-cases, inl, inr, map,
  ◌⊎◌,
}
use cs202_lab.Log.{Block, View, Write, update, apply, write_log_from, install_from}

-- A block outside the log area that holds `n` logged blocks behind its header.
abbrev pub is_home : ℕ → ℕ → ℕ → Bool
is_home start n b = ltb b start || ltb (start + n) b

-- The log area holds what `v` has for the blocks, from position `tail`.
abbrev pub Logged : ℕ → ℕ → List ℕ → View → View → Type 0
Logged start tail [] v d = Unit {0}
Logged start tail (b ∷ bs) v d = (d (start + tail + 1) ≡ v b) × Logged start (suc tail) bs v d

-- The new contents of the blocks of a transaction.
abbrev pub replaced : List ℕ → View → View → View
replaced bs v d a = if any_of (λ b. b == a) bs then v a else d a

pub update_self {ℓ} : {A : Type ℓ} (f : ℕ → A) (a : ℕ) (x : A) → update f a x a ≡ x
unfolding update
update_self f a x = ground arith

pub update_ne {ℓ} : {A : Type ℓ} (f : ℕ → A) (a b : ℕ) (x : A) → b ≢ a → update f a x b ≡ f b
unfolding update
update_ne f a b x h = ground arith

pub Logged-update :
    (start tail : ℕ) (bs : List ℕ) (v d : View) (a : ℕ) (w : Block)
    → (a ≤ start + tail) ⊎ (start + tail + length bs < a)
    → Logged start tail bs v d
    → Logged start tail bs v (update d a w)
Logged-update start tail [] v d a w far h = tt
Logged-update start tail (b ∷ bs) v d a w far (e, h) = (
  update_ne d a (start + tail + 1) w (λ (q : start + tail + 1 ≡ a). omega arith) ∙ e,
  Logged-update start (suc tail) bs v d a w (omega arith) h,
)

replaced-cons :
    (b : ℕ) (bs : List ℕ) (v d : View) (a : ℕ)
    → replaced bs v (update d b (v b)) a ≡ replaced (b ∷ bs) v d a
unfolding update
replaced-cons b bs v d a = elim (Bool-cases (b == a)) [
  | inl h ↦ let same : b ≡ a = ground arith in ground (arith, ap v same)
  | inr h ↦ ground arith
]

-- Installing a logged transaction gives each home block its logged contents.
pub install_view :
    (start tail m : ℕ) (bs : List ℕ) (v d : View) (a : ℕ)
    → tail + length bs ≤ m
    → all_of (is_home start m) bs ≡ true
    → Logged start tail bs v d
    → (install_from start tail bs d).0 a ≡ replaced bs v d a
unfolding install_from
install_view start tail m [] v d a le h l = refl
install_view start tail m (b ∷ bs) v d a le h (e, l) = rw e (
    install_view start (suc tail) m bs v (update d b (v b)) a (omega arith) (ground arith)
      (Logged-update start (suc tail) bs v d b (v b) (ground arith) l)
    ∙ replaced-cons b bs v d a)

-- The writes of `write_log` and of `install_trans`, as lists.
abbrev pub logged_list : ℕ → ℕ → List ℕ → View → List Write
logged_list start tail [] v = []
logged_list start tail (b ∷ bs) v = (start + tail + 1, v b) ∷ logged_list start (suc tail) bs v

abbrev pub home_list : List ℕ → View → List Write
home_list bs v = map (λ b. (b, v b)) bs

logged_list-congr :
    (start tail m : ℕ) (bs : List ℕ) (v : View) (a : ℕ) (w : Block)
    → all_of (is_home start m) bs ≡ true
    → is_home start m a ≡ false
    → logged_list start tail bs (update v a w) ≡ logged_list start tail bs v
logged_list-congr start tail m [] v a w h n = refl
logged_list-congr start tail m (b ∷ bs) v a w h n =
    ap₂ (λ x ys. (start + tail + 1, x) ∷ ys)
      (update_ne v a b w (λ (q : b ≡ a). ground (arith, ap (is_home start m) q)))
      (logged_list-congr start (suc tail) m bs v a w (ground arith) n)

pub write_log-list :
    (start tail m : ℕ) (bs : List ℕ) (v : View)
    → tail + length bs ≤ m
    → all_of (is_home start m) bs ≡ true
    → (write_log_from start tail bs v).1 ≡ logged_list start tail bs v
unfolding write_log_from
write_log-list start tail m [] v le h = refl
write_log-list start tail m (b ∷ bs) v le h =
    ap (λ ws. (start + tail + 1, v b) ∷ ws)
      (write_log-list start (suc tail) m bs (update v (start + tail + 1) (v b)) (omega arith)
          (ground arith)
        ∙ logged_list-congr start (suc tail) m bs v (start + tail + 1) (v b) (ground arith)
            (ground arith))

-- `install_trans` writes each block's logged contents to its home.
pub install-list :
    (start tail m : ℕ) (bs : List ℕ) (v d : View)
    → tail + length bs ≤ m
    → all_of (is_home start m) bs ≡ true
    → Logged start tail bs v d
    → (install_from start tail bs d).1 ≡ home_list bs v
unfolding install_from
install-list start tail m [] v d le h l = refl
install-list start tail m (b ∷ bs) v d le h (e, l) = rw e (
    ap (λ ws. (b, v b) ∷ ws)
      (install-list start (suc tail) m bs v (update d b (v b)) (omega arith) (ground arith)
        (Logged-update start (suc tail) bs v d b (v b) (ground arith) l)))

-- The views after these loops are what their writes make of the view before.
pub write_log-apply :
    (start tail : ℕ) (bs : List ℕ) (v : View)
    → (write_log_from start tail bs v).0 ≡ apply (write_log_from start tail bs v).1 v
unfolding write_log_from apply
write_log-apply start tail [] v = refl
write_log-apply start tail (b ∷ bs) v =
    write_log-apply start (suc tail) bs (update v (start + tail + 1) (v b))

pub install-apply :
    (start tail : ℕ) (bs : List ℕ) (v : View)
    → (install_from start tail bs v).0 ≡ apply (install_from start tail bs v).1 v
unfolding install_from apply
install-apply start tail [] v = refl
install-apply start tail (b ∷ bs) v =
    install-apply start (suc tail) bs (update v b (v (start + tail + 1)))

-- Any part of the log writes leaves alone what lies outside the log area.
pub apply-logged_list :
    (k start tail : ℕ) (bs : List ℕ) (v d : View) (a : ℕ)
    → (a ≤ start + tail) ⊎ (start + tail + length bs < a)
    → apply (take k (logged_list start tail bs v)) d a ≡ d a
unfolding apply
apply-logged_list zero start tail bs v d a far = refl
apply-logged_list (suc k) start tail [] v d a far = refl
apply-logged_list (suc k) start tail (b ∷ bs) v d a far =
    apply-logged_list k start (suc tail) bs v (update d (start + tail + 1) (v b)) a (omega arith)
    ∙ update_ne d (start + tail + 1) a (v b) (λ (q : a ≡ start + tail + 1). omega arith)

-- Any part of the home writes leaves alone the blocks that are not in the transaction.
pub apply-home_list_ne :
    (k : ℕ) (bs : List ℕ) (v d : View) (a : ℕ)
    → any_of (λ b. b == a) bs ≡ false
    → apply (take k (home_list bs v)) d a ≡ d a
unfolding apply
apply-home_list_ne zero bs v d a h = refl
apply-home_list_ne (suc k) [] v d a h = refl
apply-home_list_ne (suc k) (b ∷ bs) v d a h =
    apply-home_list_ne k bs v (update d b (v b)) a (ground arith)
    ∙ update_ne d b a (v b) (λ (q : a ≡ b). ground arith)

pub apply-home_list :
    (bs : List ℕ) (v d : View) (a : ℕ) → apply (home_list bs v) d a ≡ replaced bs v d a
unfolding apply
apply-home_list [] v d a = refl
apply-home_list (b ∷ bs) v d a =
    apply-home_list bs v (update d b (v b)) a ∙ replaced-cons b bs v d a

pub take_all {ℓ} : {A : Type ℓ} (xs : List A) → take (length xs) xs ≡ xs
take_all [] = refl
take_all (x ∷ xs) = ap (λ ys. x ∷ ys) (take_all xs)

-- The log area holds the transaction once it is written.
pub Logged-apply :
    (start tail : ℕ) (bs : List ℕ) (v d : View)
    → Logged start tail bs v (apply (logged_list start tail bs v) d)
unfolding apply
Logged-apply start tail [] v d = tt
Logged-apply start tail (b ∷ bs) v d = (
  ap (λ ws. apply ws (update d (start + tail + 1) (v b)) (start + tail + 1))
        (sym (take_all (logged_list start (suc tail) bs v)))
      ∙ apply-logged_list (length (logged_list start (suc tail) bs v)) start (suc tail) bs v
          (update d (start + tail + 1) (v b)) (start + tail + 1) (omega arith)
      ∙ update_self d (start + tail + 1) (v b),
  Logged-apply start (suc tail) bs v (update d (start + tail + 1) (v b)),
)

-- And still holds it after any part of the home writes.
pub Logged-home_list :
    (k start tail m : ℕ) (bs cs : List ℕ) (v d : View)
    → tail + length bs ≤ m
    → all_of (is_home start m) cs ≡ true
    → Logged start tail bs v d
    → Logged start tail bs v (apply (take k (home_list cs v)) d)
unfolding apply
Logged-home_list zero start tail m bs cs v d le h l = l
Logged-home_list (suc k) start tail m bs [] v d le h l = l
Logged-home_list (suc k) start tail m bs (c ∷ cs) v d le h l =
    Logged-home_list k start tail m bs cs v (update d c (v c)) le (ground arith)
      (Logged-update start tail bs v d c (v c) (ground arith) l)
