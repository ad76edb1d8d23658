-- ===== src/Vm/User.antt =====
-- The memory of a process: `uvmcreate`, `uvminit`, `uvmalloc`, `uvmdealloc`, `freewalk`, `uvmfree`,
-- `uvmcopy` and `uvmclear`. Permission 30 is `PTE_W|PTE_X|PTE_R|PTE_U`.
use cs202_lab.Prelude.{
  ℕ, zero, suc, ◌+◌, ◌-◌, ◌*◌, ◌/◌, ◌%◌, Bool, true, false, not, ◌==◌, ◌&&◌, leb, ltb, Option, none,
  some, if◌then◌else◌,
}
use cs202_lab.Strings.{memmove}
use cs202_lab.Vm.{
  M, pure, ◌>>=◌, ◌>>◌, panic, pte2pa, pte_flags, has_flag, is_valid, clear_page, set_pte,
}
use cs202_lab.Vm.Table.{alloc_page, walk, mappages, free_page, uvmunmap}

abbrev pub page_up : ℕ → ℕ
page_up sz = (sz + 4096 - 1) / 4096 * 4096

unfoldable pub uvmcreate : M ℕ
uvmcreate = do table ← alloc_page; λ v. some (table, if table == 0 then v else clear_page table v)

-- `memmove` between pages of data.
abbrev pub move_bytes : ℕ → ℕ → ℕ → M (Unit {0})
move_bytes dst src n v = some (tt, record v { bytes = memmove dst src n v.bytes })

-- `uvminit`. It looks at neither the page of `kalloc` nor the result of `mappages`.
unfoldable pub uvminit : ℕ → ℕ → ℕ → M (Unit {0})
uvminit table src sz = if leb 4096 sz then panic else do
  mem ← alloc_page
  λ v. some (tt, clear_page mem v)
  mappages table 0 4096 mem 30
  move_bytes mem src sz

module _ (end' : ℕ) where
  -- `uvmdealloc`: the new size.
  unfoldable pub uvmdealloc : ℕ → ℕ → ℕ → M ℕ
  uvmdealloc table oldsz newsz =
      if leb oldsz newsz
      then pure oldsz
      else if not (ltb (page_up newsz) (page_up oldsz))
      then pure newsz
      else do
        uvmunmap end' table (page_up newsz) ((page_up oldsz - page_up newsz) / 4096) true
        pure newsz

  -- `mappages` of one page, which is freed if that fails.
  unfoldable pub map_or_free : ℕ → ℕ → ℕ → ℕ → M Bool
  map_or_free table a mem perm = do
    done ← mappages table a 4096 mem perm
    if done then pure true else (do free_page end' mem; pure false)

  -- The body of the loop of `uvmalloc`: whether it goes on.
  abbrev pub grow_page : ℕ → ℕ → ℕ → M Bool
  grow_page table a zero = pure false
  grow_page table a (suc mem) = do
    λ v. some (tt, clear_page (suc mem) v)
    map_or_free table a (suc mem) 30

  unfoldable pub grow_one : ℕ → ℕ → M Bool
  unfolding map_or_free
  grow_one table a = do mem ← alloc_page; grow_page table a mem

  -- The loop of `uvmalloc` with `n` pages to go, and what follows it.
  unfoldable pub grow_loop : ℕ → ℕ → ℕ → ℕ → ℕ → M ℕ
  unfolding grow_one
  grow_loop zero table oldsz a newsz v = some (newsz, v)
  grow_loop (suc n) table oldsz a newsz v = elim (grow_one table a v) [
    | none ↦ none
    | some (true, v') ↦ grow_loop n table oldsz (a + 4096) newsz v'
    | some (false, v') ↦ (do uvmdealloc table a oldsz; pure 0) v'
  ]

  -- `uvmalloc`: the new size, or 0.
  unfoldable pub uvmalloc : ℕ → ℕ → ℕ → M ℕ
  unfolding grow_loop
  uvmalloc table oldsz newsz =
      if ltb newsz oldsz
      then pure oldsz
      else grow_loop ((page_up newsz - page_up oldsz) / 4096) table (page_up oldsz) (page_up oldsz)
          newsz

  -- The loop of `freewalk` with `n` entries to go from index `i`.
  unfoldable pub free_entries : (ℕ → M (Unit {0})) → ℕ → ℕ → ℕ → M (Unit {0})
  free_entries below zero i table v = some (tt, v)
  free_entries below (suc n) i table v =
      let pte = v.ptes (table + 8 * i) in
      if is_valid pte && (pte / 2 % 8 == 0)
      then elim (below (pte2pa pte) v) [
        | none ↦ none
        | some (_, v') ↦ free_entries below n (suc i) table (set_pte (table + 8 * i) 0 v')
      ]
      else if is_valid pte
      then none
      else free_entries below n (suc i) table v

  -- `freewalk` of a table with fewer than `depth` levels of tables below it. Page tables have three
  -- levels; where there are more, the source goes on and this is `none`.
  unfoldable pub freewalk : ℕ → ℕ → M (Unit {0})
  unfolding free_entries
  freewalk zero table = panic
  freewalk (suc depth) table = do free_entries (freewalk depth) 512 0 table; free_page end' table

  unfoldable pub uvmfree : ℕ → ℕ → M (Unit {0})
  uvmfree table sz =
      if not (ltb 0 sz)
      then freewalk 3 table
      else do uvmunmap end' table 0 (page_up sz / 4096) true; freewalk 3 table

  -- The body of the loop of `uvmcopy`: whether it goes on.
  abbrev pub copy_page : ℕ → ℕ → ℕ → ℕ → M Bool
  copy_page new i pte zero = pure false
  copy_page new i pte (suc mem) = do
    move_bytes (suc mem) (pte2pa pte) 4096
    map_or_free new i (suc mem) (pte_flags pte)

  abbrev pub copy_entry : ℕ → ℕ → Option ℕ → M Bool
  copy_entry new i none v = none
  copy_entry new i (some q) v =
      if not (is_valid (v.ptes q))
      then none
      else (do mem ← alloc_page; copy_page new i (v.ptes q) mem) v

  unfoldable pub copy_one : ℕ → ℕ → ℕ → M Bool
  unfolding map_or_free
  copy_one old new i = do q ← walk old i false; copy_entry new i q

  unfoldable pub copy_loop : ℕ → ℕ → ℕ → ℕ → M Bool
  unfolding copy_one
  copy_loop zero old new i v = some (true, v)
  copy_loop (suc n) old new i v = elim (copy_one old new i v) [
    | none ↦ none
    | some (true, v') ↦ copy_loop n old new (i + 4096) v'
    | some (false, v') ↦ (do uvmunmap end' new 0 (i / 4096) true; pure false) v'
  ]

  -- `uvmcopy`: `false` is -1.
  unfoldable pub uvmcopy : ℕ → ℕ → ℕ → M Bool
  unfolding copy_loop
  uvmcopy old new sz = copy_loop (page_up sz / 4096) old new 0

-- `uvmclear`: `PTE_U` is 16.
abbrev pub clear_user : Option ℕ → M (Unit {0})
clear_user none v = none
clear_user (some q) v =
    some (tt, set_pte q (if has_flag 4 (v.ptes q) then v.ptes q - 16 else v.ptes q) v)

unfoldable pub uvmclear : ℕ → ℕ → M (Unit {0})
uvmclear table va = do q ← walk table va false; clear_user q
