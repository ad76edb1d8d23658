-- ===== src/Log/Trace.antt =====
-- What recovery does with a disk, and the writes of a commit in order.
use cs202_lab.Prelude.{
  ℕ, suc, ◌+◌, ◌<◌, ◌≤◌, ◌≡◌, ◌≢◌, refl, true, false, List, [], ◌∷◌, ◌++◌, ◌==◌, arith, length,
  get_or, all_of, any_of, ap, ◌∙◌, sym, ◌⊎◌,
}
use cs202_lab.Log.{
  Block, View, Write, update, apply, write_log_from, install_from, header_words, write_head,
  read_head, commit_steps, recover, get_blocks,
}
use cs202_lab.Log.Header.{header_count, header_blocks}
use cs202_lab.Log.Install.{
  is_home, Logged, replaced, logged_list, home_list, install_view, update_self, update_ne,
  Logged-update, write_log-list, install-list, write_log-apply, apply-logged_list, Logged-apply,
  take_all,
}

read_head_none : (start : ℕ) (d : View) → get_or (d start) 0 0 ≡ 0 → read_head start d ≡ []
unfolding read_head get_blocks
read_head_none start d e = rw (e, get_blocks) refl

read_head-header :
    (start : ℕ) (bs : List ℕ) (w : Block) (d : View)
    → d start ≡ header_words bs w
    → length bs < length w
    → read_head start d ≡ bs
unfolding read_head
read_head-header start bs w d e room = rw (e, header_count bs w room) (header_blocks bs w room)

-- Recovery under a header that counts no block changes nothing but the header.
pub recover_old :
    (start : ℕ) (d : View) (a : ℕ)
    → get_or (d start) 0 0 ≡ 0
    → a ≢ start
    → (recover start d).0 a ≡ d a
unfolding recover install_from
recover_old start d a e ne = rw (read_head_none start d e) (update_ne d start a _ ne)

-- Recovery under the header of a logged transaction installs it.
pub recover_new :
    (start : ℕ) (bs : List ℕ) (w : Block) (v d : View) (a : ℕ)
    → d start ≡ header_words bs w
    → length bs < length w
    → all_of (is_home start (length bs)) bs ≡ true
    → Logged start 0 bs v d
    → a ≢ start
    → (recover start d).0 a ≡ replaced bs v d a
unfolding recover
recover_new start bs w v d a e room h l ne = rw (read_head-header start bs w d e room) (
    update_ne (install_from start 0 bs d).0 start a _ ne
    ∙ install_view start 0 (length bs) bs v d a (omega arith) h l)

pub any_of-start :
    (start m : ℕ) (bs : List ℕ)
    → all_of (is_home start m) bs ≡ true
    → any_of (λ b. b == start) bs ≡ false
any_of-start start m [] h = refl
any_of-start start m (b ∷ bs) h = ground (arith, any_of-start start m bs)

-- The disk writes of a commit: the log, the header, the homes, the header again.
abbrev pub trace : ℕ → List ℕ → View → List Write
trace start bs v =
    logged_list start 0 bs v
    ++ ((start, header_words bs (v start))
        ∷ (home_list bs v ++ ((start, header_words [] (header_words bs (v start))) ∷ [])))

pub length-logged_list :
    (start tail : ℕ) (bs : List ℕ) (v : View) → length (logged_list start tail bs v) ≡ length bs
length-logged_list start tail [] v = refl
length-logged_list start tail (b ∷ bs) v = ap suc (length-logged_list start (suc tail) bs v)

after_log :
    (start : ℕ) (bs : List ℕ) (v : View)
    → all_of (is_home start (length bs)) bs ≡ true
    → (write_log_from start 0 bs v).0 ≡ apply (logged_list start 0 bs v) v
after_log start bs v h =
    write_log-apply start 0 bs v
    ∙ ap (λ ws. apply ws v) (write_log-list start 0 (length bs) bs v (omega arith) h)

pub apply-logged_all :
    (start : ℕ) (bs : List ℕ) (v d : View) (a : ℕ)
    → (a ≤ start) ⊎ (start + length bs < a)
    → apply (logged_list start 0 bs v) d a ≡ d a
apply-logged_all start bs v d a far =
    ap (λ ws. apply ws d a) (sym (take_all (logged_list start 0 bs v)))
    ∙ apply-logged_list (length (logged_list start 0 bs v)) start 0 bs v d a (omega arith)

-- The log area and the header block once the header is written.
pub view_committed :
    (start : ℕ) (bs : List ℕ) (v d : View) (w : Block)
    → Logged start 0 bs v (update (apply (logged_list start 0 bs v) d) start w)
view_committed start bs v d w =
    Logged-update start 0 bs v _ start w (omega arith) (Logged-apply start 0 bs v d)

pub commit_steps-trace :
    (start : ℕ) (bs : List ℕ) (v : View)
    → all_of (is_home start (length bs)) bs ≡ true
    → (commit_steps start bs v).1 ≡ trace start bs v
unfolding commit_steps write_head
commit_steps-trace start bs v h =
    rw
      (
        header_kept,
        install-list start 0 (length bs) bs v v2 (omega arith) h logged,
        home_kept,
        write_log-list start 0 (length bs) bs v (omega arith) h,
      )
      refl
  where
    v1 : View
    v1 = (write_log_from start 0 bs v).0

    header_kept : v1 start ≡ v start
    header_kept =
        ap (λ u. u start) (after_log start bs v h)
        ∙ apply-logged_all start bs v v start (omega arith)

    v2 : View
    v2 = update v1 start (header_words bs (v start))

    logged : Logged start 0 bs v v2
    logged = rw (after_log start bs v h) (view_committed start bs v v (header_words bs (v start)))

    home_kept : (install_from start 0 bs v2).0 start ≡ header_words bs (v start)
    home_kept =
        install_view start 0 (length bs) bs v v2 start (omega arith) h logged
        ∙ rw (any_of-start start (length bs) bs h)
            (update_self v1 start (header_words bs (v start)))
