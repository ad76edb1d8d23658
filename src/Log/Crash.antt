-- ===== src/Log/Crash.antt =====
-- A crash at any point of a commit, followed by recovery.
use cs202_lab.Prelude.{
  ℕ, zero, suc, ◌-◌, ◌<◌, ◌≤◌, ◌≡◌, ◌≢◌, refl, Bool, true, false, List, [], ◌∷◌, ◌++◌, ◌==◌, leb,
  if◌then◌else◌, arith, length, get_or, all_of, any_of, take, ap, ◌∙◌, sym, Bool-cases, inl, inr,
  take-append-le, take-append-add,
}
use cs202_lab.Log.{
  Block, View, Write, update, apply, install_from, header_words, write_head, read_head,
  commit_steps, recover,
}
use cs202_lab.Log.Header.{header_count, length-header_words}
use cs202_lab.Log.Trace.{
  trace, recover_old, recover_new, apply-logged_all, view_committed, commit_steps-trace,
  any_of-start, length-logged_list,
}
use cs202_lab.Log.Install.{
  is_home, replaced, logged_list, home_list, update_self, update_ne, install-apply,
  apply-logged_list, apply-home_list_ne, apply-home_list, Logged-home_list,
}

apply-append : (xs ys : List Write) (d : View) → apply (xs ++ ys) d ≡ apply ys (apply xs d)
unfolding apply
apply-append [] ys d = refl
apply-append ((a, w) ∷ xs) ys d = apply-append xs ys (update d a w)

length-home_list : (bs : List ℕ) (v : View) → length (home_list bs v) ≡ length bs
length-home_list [] v = refl
length-home_list (b ∷ bs) v = ap suc (length-home_list bs v)

take_one {ℓ} : {A : Type ℓ} (n : ℕ) (x : A) → 0 < n → take n (x ∷ []) ≡ x ∷ []
take_one zero x h = absurd (omega arith)
take_one (suc zero) x h = refl
take_one (suc (suc n)) x h = refl

home_ne_start : (start m a : ℕ) → is_home start m a ≡ true → a ≢ start
home_ne_start start m a h e = ground arith

module _ (start : ℕ) (bs : List ℕ) (v d : View) (clean : get_or (d start) 0 0 ≡ 0)
    (room : length bs < length (v start)) (homes : all_of (is_home start (length bs)) bs ≡ true)
    (a : ℕ) (home : is_home start (length bs) a ≡ true) where
  -- A crash before the header is written.
  crash_before :
      (k : ℕ) → k ≤ length bs → (recover start (apply (take k (trace start bs v)) d)).0 a ≡ d a
  crash_before k le =
      rw
        (take-append-le k (logged_list start 0 bs v) _
          (omega (arith, length-logged_list start 0 bs v)))
        (recover_old start (apply (take k (logged_list start 0 bs v)) d) a
            (ap (λ w. get_or w 0 0) (apply-logged_list k start 0 bs v d start (inl (omega arith)))
              ∙ clean)
            (home_ne_start start (length bs) a home)
          ∙ apply-logged_list k start 0 bs v d a (ground arith))

  -- The disk right after the header is written.
  committed : View
  committed = update (apply (logged_list start 0 bs v) d) start (header_words bs (v start))

  committed_home : committed a ≡ d a
  unfolding committed
  committed_home =
      update_ne _ start a _ (home_ne_start start (length bs) a home)
      ∙ apply-logged_all start bs v d a (ground arith)

  -- A crash while the blocks are installed.
  crash_installing :
      (j : ℕ) → (recover start (apply (take j (home_list bs v)) committed)).0 a ≡ replaced bs v d a
  unfolding committed
  crash_installing j =
      recover_new start bs (v start) v (apply (take j (home_list bs v)) committed) a
        (apply-home_list_ne j bs v committed start (any_of-start start (length bs) bs homes)
          ∙ update_self _ start _)
        room homes
        (Logged-home_list j start 0 (length bs) bs bs v committed (omega arith) homes
          (view_committed start bs v d (header_words bs (v start))))
        (home_ne_start start (length bs) a home)
      ∙ same (any_of (λ b. b == a) bs) refl
    where
      same :
          (hit : Bool)
          → any_of (λ b. b == a) bs ≡ hit
          → replaced bs v (apply (take j (home_list bs v)) committed) a ≡ replaced bs v d a
      same true e = rw e refl
      same false e = rw e (apply-home_list_ne j bs v committed a e ∙ committed_home)

  -- A crash after the header is erased.
  crash_after :
      (w : Block)
      → get_or w 0 0 ≡ 0
      → (recover start (update (apply (home_list bs v) committed) start w)).0 a ≡ replaced bs v d a
  crash_after w e =
      recover_old start (update (apply (home_list bs v) committed) start w) a
        (ap (λ u. get_or u 0 0) (update_self (apply (home_list bs v) committed) start w) ∙ e)
        (home_ne_start start (length bs) a home)
      ∙ update_ne (apply (home_list bs v) committed) start a w
          (home_ne_start start (length bs) a home)
      ∙ apply-home_list bs v committed a
      ∙ ap (λ u. if any_of (λ b. b == a) bs then v a else u) committed_home

  -- The writes behind the header, cut after `j` of them.
  crash_behind :
      (j : ℕ) (w : Block)
      → get_or w 0 0 ≡ 0
      → (recover start (apply (take j (home_list bs v ++ ((start, w) ∷ []))) committed)).0 a
        ≡ replaced bs v d a
  crash_behind j w e = elim (Bool-cases (leb j (length bs))) [
    | inl le ↦
        rw
          (take-append-le j (home_list bs v) ((start, w) ∷ [])
            (rw (length-home_list bs v) (ground arith)))
          (crash_installing j)
    | inr gt ↦
        rw
          (
            take-append-add j (home_list bs v) ((start, w) ∷ [])
                (rw (length-home_list bs v) (ground arith)),
            length-home_list bs v,
            take_one {A = Write} (j - length bs) (start, w) (ground arith),
            apply-append (home_list bs v) ((start, w) ∷ []) committed,
          )
          (unfold apply in crash_after w e)
  ]

  crash_from_header :
      (k : ℕ)
      → length bs < k
      → (recover start (apply (take k (trace start bs v)) d)).0 a ≡ replaced bs v d a
  unfolding committed apply
  crash_from_header k lt =
      rw
        (
          take-append-add k (logged_list start 0 bs v) _
              (omega (arith, length-logged_list start 0 bs v)),
          length-logged_list start 0 bs v,
          apply-append,
          shape,
        )
        (crash_behind (k - length bs - 1) (header_words [] (header_words bs (v start))) (
          header_count [] (header_words bs (v start))
            (omega (arith, length-header_words bs (v start)))))
    where
      shape : k - length bs ≡ suc (k - length bs - 1)
      shape = omega arith

  -- A crash anywhere in a commit is harmless. Take a transaction of blocks outside the log area that
  -- fits the header, and a disk whose header counts no block. Let the machine stop after any number
  -- `k` of the disk writes of the commit, and recover from what it left: every block outside the log
  -- area has its old contents if the header had not been written, and else its new contents when it
  -- belongs to the transaction, its old ones when it does not.
  pub crash_lem :
      (k : ℕ)
      → (recover start (apply (take k (commit_steps start bs v).1) d)).0 a
        ≡ (if leb k (length bs) then d a else replaced bs v d a)
  crash_lem k = rw (commit_steps-trace start bs v homes) (elim (Bool-cases (leb k (length bs))) [
    | inl le ↦ rw le (crash_before k (ground arith))
    | inr gt ↦ rw gt (crash_from_header k (ground arith))
  ])

-- The blocks that `bread` returns after recovery are those on the disk.
pub recover-disk : (start : ℕ) (d : View) → (recover start d).0 ≡ apply (recover start d).1 d
unfolding recover write_head apply
recover-disk start d =
    let installed = apply (install_from start 0 (read_head start d) d).1 d in
    let e = install-apply start 0 (read_head start d) d in
    ap (λ u. update u start (header_words [] (u start))) e
    ∙ ap (λ u. update installed start (header_words [] (u start))) (sym e)
    ∙ sym (apply-append (install_from start 0 (read_head start d) d).1 _ d)
