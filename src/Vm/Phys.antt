-- ===== src/Vm/Phys.antt =====
-- The physical addresses behind the user addresses.
use cs202_lab.Prelude.{ℕ, zero, suc, ◌+◌, ◌*◌, ◌%◌, ◌<◌, ◌≡◌, refl, ltb, if◌then◌else◌, arith, ap}
use cs202_lab.Strings.{Memory}
use cs202_lab.Vm.{Vm, maxva, pg_round_down, pte2pa, is_valid, px}
use cs202_lab.Vm.Table.{user_address}
use cs202_lab.Vm.Lookup.{look}
use cs202_lab.Vm.Entry.{entry_of}

look-bytes :
    (l : ℕ) (v : Vm) (b : Memory) (t va : ℕ) → look l (record v { bytes = b }) t va ≡ look l v t va
unfolding look
look-bytes zero v b t va = refl
look-bytes (suc l) v b t va =
    ap (λ x. if is_valid (v.ptes (t + 8 * px (suc l) va)) then x else 0)
      (look-bytes l v b (pte2pa (v.ptes (t + 8 * px (suc l) va))) va)

-- The physical page of a user address, or 0.
abbrev pub page_at : ℕ → Vm → ℕ → ℕ
page_at root v va =
    if ltb (pg_round_down va) maxva then user_address (entry_of root v (pg_round_down va)) else 0

-- The physical address of a user address.
abbrev pub phys : ℕ → Vm → ℕ → ℕ
phys root v va = page_at root v va + va % 4096

pub page_at-bytes :
    (root : ℕ) (v : Vm) (b : Memory) (va : ℕ)
    → page_at root (record v { bytes = b }) va ≡ page_at root v va
page_at-bytes root v b va =
    ap (λ e. if ltb (pg_round_down va) maxva then user_address e else 0)
      (look-bytes 2 v b root (pg_round_down va))

pub page_at-same :
    (root : ℕ) (v : Vm) (va j : ℕ)
    → va % 4096 + j < 4096
    → page_at root v (va + j) ≡ page_at root v va
page_at-same root v va j h =
    let same : pg_round_down (va + j) ≡ pg_round_down va = omega arith in
    ap (λ a. if ltb a maxva then user_address (entry_of root v a) else 0) same
