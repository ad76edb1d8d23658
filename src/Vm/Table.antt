-- ===== src/Vm/Table.antt =====
-- `walk`, `walkaddr`, `mappages`, `kvmmap` and `uvmunmap`.
use cs202_lab.Prelude.{
  ℕ, zero, suc, ◌+◌, ◌-◌, ◌*◌, ◌/◌, ◌%◌, Bool, true, false, not, ◌==◌, leb, Option, none, some,
  if◌then◌else◌,
}
use cs202_lab.Kalloc.{Kmem, kalloc, kfree}
use cs202_lab.Vm.{
  Vm, M, pure, ◌>>=◌, panic, maxva, pg_round_down, px, pa2pte, pte2pa, pte_flags, has_flag,
  is_valid, pte_of, clear_page, set_pte,
}

-- The page that `kalloc` gives, or 0.
abbrev pub alloc_page : M ℕ
alloc_page v = let (k, pa) = kalloc v.kmem in some (pa, record v { kmem = k })

-- A new table below the entry at `q`, unless there is no page.
abbrev pub hang : ℕ → Kmem × ℕ → Vm → Option ℕ × Vm
hang q (k, zero) v = (none, record v { kmem = k })
hang q (k, suc c) v =
    (some (suc c), set_pte q (pa2pte (suc c) + 1) (clear_page (suc c) (record v { kmem = k })))

-- The body of the loop of `walk`, at the entry `q`: the table below it.
unfoldable pub next_table : Bool → ℕ → Vm → Option ℕ × Vm
next_table alloc q v =
    if is_valid (v.ptes q)
    then (some (pte2pa (v.ptes q)), v)
    else if alloc
    then hang q (kalloc v.kmem) v
    else (none, v)

-- The rest of the loop, once the table below is known.
abbrev pub descend : (ℕ → Vm → Option ℕ × Vm) → Option ℕ × Vm → Option ℕ × Vm
descend more (none, v) = (none, v)
descend more (some t, v) = more t v

-- The loop of `walk` from a table of the level: the address of the entry, or null.
unfoldable pub walk_down : Bool → ℕ → ℕ → ℕ → Vm → Option ℕ × Vm
unfolding next_table
walk_down alloc zero table va v = (some (table + 8 * px 0 va), v)
walk_down alloc (suc l) table va v =
    descend (λ t. walk_down alloc l t va) (next_table alloc (table + 8 * px (suc l) va) v)

unfoldable pub walk : ℕ → ℕ → Bool → M (Option ℕ)
unfolding walk_down
walk table va alloc v = if leb maxva va then none else some (walk_down alloc 2 table va v)

-- `walkaddr`: the physical address, or 0.
abbrev pub user_address : ℕ → ℕ
user_address pte = if not (is_valid pte) then 0 else if not (has_flag 4 pte) then 0 else pte2pa pte

abbrev pub address_of : Option (Option ℕ × Vm) → Option (ℕ × Vm)
address_of none = none
address_of (some (none, v)) = some (0, v)
address_of (some (some q, v)) = some (user_address (v.ptes q), v)

unfoldable pub walkaddr : ℕ → ℕ → M ℕ
unfolding walk
walkaddr table va v = if leb maxva va then some (0, v) else address_of (walk table va false v)

-- The body of the loop of `mappages`: `false` is -1.
abbrev pub put_entry : ℕ → ℕ → Option ℕ → M Bool
put_entry pa perm none v = some (false, v)
put_entry pa perm (some q) v =
    if is_valid (v.ptes q) then none else some (true, set_pte q (pte_of pa perm) v)

unfoldable pub map_one : ℕ → ℕ → ℕ → ℕ → M Bool
unfolding walk
map_one table a pa perm = do q ← walk table a true; put_entry pa perm q

-- A loop goes on while its body says `true`.
abbrev pub go_on : M Bool → Option (Bool × Vm) → Option (Bool × Vm)
go_on more none = none
go_on more (some (false, v)) = some (false, v)
go_on more (some (true, v)) = more v

-- The loop of `mappages`, with `n` rounds after this one.
unfoldable pub map_loop : ℕ → ℕ → ℕ → ℕ → ℕ → M Bool
unfolding map_one
map_loop zero table a pa perm v = map_one table a pa perm v
map_loop (suc n) table a pa perm v =
    go_on (map_loop n table (a + 4096) (pa + 4096) perm) (map_one table a pa perm v)

unfoldable pub mappages : ℕ → ℕ → ℕ → ℕ → ℕ → M Bool
unfolding map_loop
mappages table va size pa perm =
    let a = pg_round_down va in
    let last = pg_round_down (va + size - 1) in
    if size == 0 then panic else map_loop ((last - a) / 4096) table a pa perm

unfoldable pub kvmmap : ℕ → ℕ → ℕ → ℕ → ℕ → M (Unit {0})
unfolding mappages
kvmmap table va pa size perm = do
  done ← mappages table va size pa perm
  if done then pure tt else panic

abbrev pub and_then : M (Unit {0}) → Option (Unit {0} × Vm) → Option (Unit {0} × Vm)
and_then more none = none
and_then more (some (_, v)) = more v

module _ (end' : ℕ) where
  -- `kfree`
  abbrev pub free_page : ℕ → M (Unit {0})
  free_page pa v = elim (kfree end' pa v.kmem) [
    | none ↦ none
    | some k ↦ some (tt, record v { kmem = k })
  ]

  -- The body of the loop of `uvmunmap`, at the entry that `walk` found.
  abbrev pub drop_entry : Bool → Option ℕ → M (Unit {0})
  drop_entry do_free none v = none
  drop_entry do_free (some q) v =
      let pte = v.ptes q in
      if not (is_valid pte)
      then none
      else if pte_flags pte == 1
      then none
      else if do_free
      then elim (free_page (pte2pa pte) v) [
        | none ↦ none
        | some (_, v') ↦ some (tt, set_pte q 0 v')
      ]
      else some (tt, set_pte q 0 v)

  unfoldable pub unmap_one : ℕ → ℕ → Bool → M (Unit {0})
  unfolding walk
  unmap_one table a do_free = do q ← walk table a false; drop_entry do_free q

  unfoldable pub unmap_loop : ℕ → ℕ → ℕ → Bool → M (Unit {0})
  unfolding unmap_one
  unmap_loop zero table a do_free v = some (tt, v)
  unmap_loop (suc n) table a do_free v =
      and_then (unmap_loop n table (a + 4096) do_free) (unmap_one table a do_free v)

  unfoldable pub uvmunmap : ℕ → ℕ → ℕ → Bool → M (Unit {0})
  unfolding unmap_loop
  uvmunmap table va npages do_free =
      if not (va % 4096 == 0) then panic else unmap_loop npages table va do_free
