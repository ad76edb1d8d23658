-- ===== src/Fs/Room.antt =====
-- The room that a transaction has in its log.
use cs202_lab.Prelude.{
  ℕ, suc, false, leb, ltb, ◌-◌, ◌||◌, ◌+◌, ◌<◌, ◌≤◌, ◌≡◌, inl, inr, [], ◌∷◌, ◌==◌, Option, none,
  some, arith, length, any_of, length-append, Bool-cases,
}
use cs202_lab.Log.{Log, log_size, log_write}
use cs202_lab.Fs.Blocks.{log_call}

-- A transaction is under way, `log_write` has not panicked, and `n` blocks more fit into the log.
abbrev pub HasRoom : ℕ → Option Log → Type 0
HasRoom n none = ⊥
HasRoom n (some l) =
    (length l.blocks + n ≤ log_size) × (length l.blocks + n < l.size) × (0 < l.outstanding)

pub HasRoom-le : (m n : ℕ) (o : Option Log) → m ≤ n → HasRoom n o → HasRoom m o
HasRoom-le m n none le h = h
HasRoom-le m n (some l) le (h, h', h'') = (omega arith, omega arith, h'')

-- One call takes the room of one block at most.
pub log_call-HasRoom : (b n : ℕ) (o : Option Log) → HasRoom (suc n) o → HasRoom n (log_call b o)
unfolding log_write
log_call-HasRoom b n none h = h
log_call-HasRoom b n (some l) (h, h', h'') =
    let free : (leb log_size (length l.blocks) || leb (l.size - 1) (length l.blocks)) ≡ false =
      ground arith in
    let open' : ltb l.outstanding 1 ≡ false = ground arith in
    elim (Bool-cases (any_of (λ c. c == b) l.blocks)) [
      | inl e ↦ rw (free, open', e) (omega arith, omega arith, h'')
      | inr e ↦
          let more = length-append l.blocks (b ∷ []) in
          rw (free, open', e, more) (omega arith, omega arith, h'')
    ]
