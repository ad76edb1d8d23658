-- ===== src/Fs/Words.antt =====
-- Slots by where they are, and a file that grows.
use cs202_lab.Prelude.{
  ℕ, suc, ◌+◌, ◌-◌, ◌*◌, ◌<◌, ◌≤◌, ◌≡◌, ◌≢◌, sym, ap, ◌⊎◌, inl, inr, refl, ◌∙◌, true, false, ◌==◌,
  ltb, if◌then◌else◌, get_or, arith, Bool-cases,
}
use cs202_lab.Fs.Blocks.{Disk, ndirect}
use cs202_lab.Fs.Bmap.{Content}
use cs202_lab.Fs.Room.{HasRoom, HasRoom-le}
use cs202_lab.Fs.Rw.{maxfile, bsize}
use cs202_lab.Fs.Sound.{slot, byte_at, IsSound}
use cs202_lab.Fs.Free.{free_below}
use cs202_lab.Fs.Growth.{IsFilled, Filled-IsSound, Filled-byte_at}

-- A word of an indirect block, or of none.
abbrev pub word_in : ℕ → ℕ → Disk → ℕ
word_in b j d = if b == 0 then 0 else d.words b j

pub slot-direct :
    (k : ℕ) (ip : Content) (d : Disk) → ltb k ndirect ≡ true → slot ip d k ≡ get_or ip.addrs k 0
unfolding slot
slot-direct k ip d h = rw h refl

pub slot-last : (ip : Content) (d : Disk) → slot ip d maxfile ≡ get_or ip.addrs ndirect 0
unfolding slot
slot-last ip d = refl

pub slot-middle :
    (k : ℕ) (ip : Content) (d : Disk)
    → ltb k ndirect ≡ false
    → (k == maxfile) ≡ false
    → slot ip d k ≡ word_in (get_or ip.addrs ndirect 0) (k - ndirect) d
unfolding slot
slot-middle k ip d h g = rw (h, g) refl

pub slot_cases :
    (k : ℕ)
    → (ltb k ndirect ≡ true)
      ⊎ ((k ≡ maxfile) ⊎ ((ltb k ndirect ≡ false) × ((k == maxfile) ≡ false)))
slot_cases k = elim (Bool-cases (ltb k ndirect)) [
  | inl h ↦ inl h
  | inr h ↦ elim (Bool-cases (k == maxfile)) [
    | inl e ↦ inr (inl (ground arith))
    | inr e ↦ inr (inr (h, e))
  ]
]

module _ (bmapstart size : ℕ) where
  -- A file that has grown by `n` blocks at most, and holds the same bytes.
  pub record HasGrown (n : ℕ) (ip : Content) (d : Disk) (ip' : Content) (d' : Disk) : Type 0 where
    pub sound : IsSound bmapstart size ip' d'
    pub length_same : ip'.size ≡ ip.size
    pub free : free_below bmapstart size d ≤ free_below bmapstart size d' + n
    pub same : (p : ℕ) → p < maxfile * bsize → byte_at ip' d' p ≡ byte_at ip d p
    pub room : (k : ℕ) → HasRoom (k + 3 * n) d.log → HasRoom k d'.log
    pub kept : (k : ℕ) → k ≤ maxfile → slot ip d k ≢ 0 → slot ip' d' k ≡ slot ip d k

  pub stays : (n : ℕ) (ip : Content) (d : Disk) → IsSound bmapstart size ip d → HasGrown n ip d ip d
  stays n ip d s = record {
    sound = s;
    length_same = refl;
    free = omega arith;
    same = λ p lt. refl;
    room = λ k h. HasRoom-le k (k + 3 * n) d.log (omega arith) h;
    kept = λ k le ne. refl;
  }

  pub grows :
      (k r : ℕ) (ip ip' : Content) (d d' : Disk)
      → IsSound bmapstart size ip d
      → IsFilled bmapstart size k r ip ip' d d'
      → free_below bmapstart size d ≡ suc (free_below bmapstart size d')
      → ip'.size ≡ ip.size
      → ((k : ℕ) → HasRoom (k + 3) d.log → HasRoom k d'.log)
      → HasGrown 1 ip d ip' d'
  grows k r ip ip' d d' s f free_one same_size room = record {
    room = room;
    sound = Filled-IsSound bmapstart size s f;
    length_same = same_size;
    free = omega arith;
    same = Filled-byte_at bmapstart size s f;
    kept = λ l le ne. f.others l le (λ e. ne (ap (slot ip d) e ∙ f.hole));
  }

  pub HasGrown-trans :
      (ip ip' ip'' : Content) (d d' d'' : Disk)
      → HasGrown 1 ip d ip' d'
      → HasGrown 1 ip' d' ip'' d''
      → HasGrown 2 ip d ip'' d''
  HasGrown-trans ip ip' ip'' d d' d'' g h = record {
    sound = h.sound;
    length_same = h.length_same ∙ g.length_same;
    free = omega (arith, g.free, h.free);
    same = λ p lt. h.same p lt ∙ g.same p lt;
    room = λ k r. h.room k (g.room (k + 3) (HasRoom-le (k + 3 + 3) (k + 6) d.log (omega arith) r));
    kept = λ k le ne. let first = g.kept k le ne in h.kept k le (λ z. ne (sym first ∙ z)) ∙ first;
  }
