-- ===== src/Paging/Space/Boot.antt =====
-- `init_ia32e_paging` of sys/paging.c: the kernel's page table, which maps all of physical memory at
-- 0xffffffff80000000.
use osproject.Prelude.{ℕ, zero, suc, ◌+◌, ◌-◌, ◌/◌, ◌%◌, ◌^◌, ltb, ◌==◌, if◌then◌else◌}
use osproject.Prelude.State.{Op, pure, ◌>>=◌, ◌>>◌}
use osproject.Paging.Frames.{Memory, allocate_page}
use osproject.Paging.Tables.{index4, index3, index2, index1, entry, slot, store}
use osproject.Paging.Tables.Kmalloc.{kernel_base}
use osproject.Paging.Space.{change}

-- The globals that the loop changes.
pub record Cursor : Type 0 where
  pub viraddr : ℕ
  pub physbase : ℕ
  pub pte : ℕ

-- `pte[pt_idx] = (physbase & 0xFFFFFFFFFFFFF000) | 3` for the cursor's page, with a new last-level
-- table first where `pt_idx` is 0.
unfoldable pub map_next : ℕ → Cursor → Op Memory Cursor
unfolding store
map_next pde c = do
  pte ←
      (if index1 c.viraddr == 0
        then (do pte ← allocate_page; store (slot pde (index2 c.viraddr)) (entry pte 3); pure pte)
        else pure c.pte)
  store (slot pte (index1 c.viraddr)) (entry c.physbase 3)
  pure (record {
    viraddr = (c.viraddr + 4096) % 2 ^ 64;
    physbase = (c.physbase + 4096) % 2 ^ 64;
    pte = pte;
  })

-- `for (; physbase < physfree; …)`.
unfoldable pub map_all : ℕ → ℕ → ℕ → Cursor → Op Memory Cursor
map_all zero pde physfree c = pure c
map_all (suc fuel) pde physfree c =
    let rest = (do c' ← map_next pde c; map_all fuel pde physfree c') in
    if ltb c.physbase physfree then rest else pure c

-- The four tables are mapped behind the rest, so that the kernel can reach them; the address kept in
-- `pml4e` is the one that `k_cr3` holds.
unfoldable pub init_ia32e_paging : ℕ → ℕ → Op Memory (Unit {0})
unfolding map_all map_next change
init_ia32e_paging physbase physfree = do
  pml4e ← allocate_page
  pdpte ← allocate_page
  pde ← allocate_page
  pte ← allocate_page
  store (slot pml4e (index4 kernel_base)) (entry pdpte 3)
  store (slot pdpte (index3 kernel_base)) (entry pde 3)
  store (slot pde (index2 kernel_base)) (entry pte 3)
  c ←
      map_all ((physfree - physbase) / 4096 + 1) pde physfree
        (record { viraddr = kernel_base; physbase = physbase; pte = pte })
  let v = c.viraddr
  store (slot c.pte (index1 (v + 4096))) (entry pml4e 3)
  store (slot c.pte (index1 (v + 8192))) (entry pdpte 3)
  store (slot c.pte (index1 (v + 12288))) (entry pde 3)
  store (slot c.pte (index1 (v + 16384))) (entry c.pte 3)
  change (λ m. record m { pml4e = pml4e })
