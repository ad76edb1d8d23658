-- ===== src/Log/Header.antt =====
-- The log header survives the way to its block and back.
use cs202_lab.Prelude.{
  ℕ, suc, ◌+◌, ◌<◌, ◌≤◌, ◌≡◌, refl, List, [], ◌∷◌, arith, length, get_or, set, ap₂, ◌∙◌,
  get_or-set_self, get_or-set_ne, length-set,
}
use cs202_lab.Log.{Block, put_blocks, get_blocks, header_words}

length-put_blocks : (i : ℕ) (bs : List ℕ) (w : Block) → length (put_blocks i bs w) ≡ length w
unfolding put_blocks
length-put_blocks i [] w = refl
length-put_blocks i (b ∷ bs) w =
    length-put_blocks (suc i) bs (set w (suc i) b) ∙ length-set w (suc i) b

put_blocks-below :
    (i j : ℕ) (bs : List ℕ) (w : Block) → j ≤ i → get_or (put_blocks i bs w) j 0 ≡ get_or w j 0
unfolding put_blocks
put_blocks-below i j [] w h = refl
put_blocks-below i j (b ∷ bs) w h =
    put_blocks-below (suc i) j bs (set w (suc i) b) (omega arith)
    ∙ get_or-set_ne w {i = suc i} {j = j} b 0 (λ (e : suc i ≡ j). omega arith)

get_blocks-put_blocks :
    (i : ℕ) (bs : List ℕ) (w : Block)
    → i + length bs < length w
    → get_blocks (length bs) i (put_blocks i bs w) ≡ bs
unfolding put_blocks get_blocks
get_blocks-put_blocks i [] w h = refl
get_blocks-put_blocks i (b ∷ bs) w h =
    ap₂ ◌∷◌
      (put_blocks-below (suc i) (suc i) bs (set w (suc i) b) (omega arith)
        ∙ get_or-set_self w (suc i) b 0 (omega arith))
      (get_blocks-put_blocks (suc i) bs (set w (suc i) b) (omega (arith, length-set w (suc i) b)))

pub length-header_words : (bs : List ℕ) (w : Block) → length (header_words bs w) ≡ length w
unfolding header_words
length-header_words bs w = length-put_blocks 0 bs (set w 0 (length bs)) ∙ length-set w 0 (length bs)

pub header_count :
    (bs : List ℕ) (w : Block) → length bs < length w → get_or (header_words bs w) 0 0 ≡ length bs
unfolding header_words
header_count bs w h =
    put_blocks-below 0 0 bs (set w 0 (length bs)) (omega arith)
    ∙ get_or-set_self w 0 (length bs) 0 (omega arith)

-- What `read_head` reads from the words that `write_head` wrote.
pub header_blocks :
    (bs : List ℕ) (w : Block)
    → length bs < length w
    → get_blocks (length bs) 0 (header_words bs w) ≡ bs
unfolding header_words
header_blocks bs w h =
    get_blocks-put_blocks 0 bs (set w 0 (length bs)) (omega (arith, length-set w 0 (length bs)))
