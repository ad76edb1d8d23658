-- ===== src/Vm/Copy.antt =====
-- Between user and kernel memory: `copyout`, `copyin` and `copyinstr`. Their loops run on fuel; each
-- round moves at least one byte, so that the count is enough.
use cs202_lab.Prelude.{
  ℕ, zero, suc, ◌+◌, ◌-◌, Bool, true, false, ◌==◌, ltb, Option, none, some, if◌then◌else◌,
}
use cs202_lab.Strings.{Memory, store, memmove}
use cs202_lab.Vm.{Vm, M, pg_round_down}
use cs202_lab.Vm.Table.{walkaddr}

-- The bytes of a round: up to the end of the page or of the count.
abbrev pub chunk : ℕ → ℕ → ℕ
chunk va len = let n = 4096 - (va - pg_round_down va) in if ltb len n then len else n

-- The test of each loop on `pa0`, and what follows it.
abbrev pub at_page : (ℕ → M Bool) → Option (ℕ × Vm) → Option (Bool × Vm)
at_page f none = none
at_page f (some (zero, v)) = some (false, v)
at_page f (some (suc pa, v)) = f (suc pa) v

-- `copyout`: `false` is -1.
unfoldable pub copyout_loop : ℕ → ℕ → ℕ → ℕ → ℕ → M Bool
copyout_loop fuel table dstva src zero v = some (true, v)
copyout_loop zero table dstva src (suc len) v = none
copyout_loop (suc fuel) table dstva src (suc len) v =
    let va0 = pg_round_down dstva in
    let n = chunk dstva (suc len) in
    at_page
      (λ pa v'.
        copyout_loop fuel table (va0 + 4096) (src + n) (suc len - n)
          (record v' { bytes = memmove (pa + (dstva - va0)) src n v'.bytes }))
      (walkaddr table va0 v)

unfoldable pub copyout : ℕ → ℕ → ℕ → ℕ → M Bool
unfolding copyout_loop
copyout table dstva src len = copyout_loop len table dstva src len

unfoldable pub copyin_loop : ℕ → ℕ → ℕ → ℕ → ℕ → M Bool
copyin_loop fuel table dst srcva zero v = some (true, v)
copyin_loop zero table dst srcva (suc len) v = none
copyin_loop (suc fuel) table dst srcva (suc len) v =
    let va0 = pg_round_down srcva in
    let n = chunk srcva (suc len) in
    at_page
      (λ pa v'.
        copyin_loop fuel table (dst + n) (va0 + 4096) (suc len - n)
          (record v' { bytes = memmove dst (pa + (srcva - va0)) n v'.bytes }))
      (walkaddr table va0 v)

unfoldable pub copyin : ℕ → ℕ → ℕ → ℕ → M Bool
unfolding copyin_loop
copyin table dst srcva len = copyin_loop len table dst srcva len

-- The inner loop of `copyinstr` for `n` bytes: whether it met the terminator.
unfoldable pub copy_chars : ℕ → ℕ → ℕ → Memory → Bool × Memory
unfolding store
copy_chars zero dst p m = (false, m)
copy_chars (suc n) dst p m =
    let more = copy_chars n (suc dst) (suc p) (store m dst (m p)) in
    if m p == 0 then (true, store m dst 0) else more

-- The rest of the outer loop, once the inner loop has ended.
abbrev pub until_null : M Bool → Vm → Bool × Memory → Option (Bool × Vm)
until_null more v (true, m) = some (true, record v { bytes = m })
until_null more v (false, m) = more (record v { bytes = m })

unfoldable pub copyinstr_loop : ℕ → ℕ → ℕ → ℕ → ℕ → M Bool
unfolding copy_chars
copyinstr_loop fuel table dst srcva zero v = some (false, v)
copyinstr_loop zero table dst srcva (suc max) v = none
copyinstr_loop (suc fuel) table dst srcva (suc max) v =
    let va0 = pg_round_down srcva in
    let n = chunk srcva (suc max) in
    at_page
      (λ pa v'.
        until_null (copyinstr_loop fuel table (dst + n) (va0 + 4096) (suc max - n)) v'
          (copy_chars n dst (pa + (srcva - va0)) v'.bytes))
      (walkaddr table va0 v)

unfoldable pub copyinstr : ℕ → ℕ → ℕ → ℕ → M Bool
unfolding copyinstr_loop
copyinstr table dst srcva max = copyinstr_loop max table dst srcva max
