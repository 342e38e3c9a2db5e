-- ===== src/Devices/Disk/Transfer.antt =====
-- The command that `readorwrite` of sys/ahci.c builds.
use osproject.Prelude.{ℕ, ◌+◌, ◌-◌, ◌*◌, ◌%◌, ◌≤◌, ◌<◌, ◌≡◌, ◌↔◌, List, [], ◌∷◌, length}
use osproject.Devices.Disk.{Prdt, DiskCommand}

-- The entries begin one behind the other from address `a` on, `dbc` bytes apart and at most 8192, and `n` is
-- the sum of these counts; each count is even.
pub data Covers : List Prdt → ℕ → ℕ → Type 0 where
  last : (a : ℕ) → Covers [] a 0
  more :
      (e : Prdt) (es : List Prdt) (a n : ℕ)
      → e.dba ≡ a
      → 0 < e.dbc
      → e.dbc ≤ 8192
      → e.dbc % 2 ≡ 0
      → Covers es (a + e.dbc) n
      → Covers (e ∷ es) a (e.dbc + n)

-- What the controller moves for the entries: it reads a `dbc` of `n` as `n + 1` bytes, of which the number
-- must be even.
abbrev pub bytes_moved : List Prdt → ℕ
bytes_moved [] = 0
bytes_moved (e ∷ es) = e.dbc + 1 + bytes_moved es

-- The command: the entries' counts are those of `count` sectors from `buf` on, so that the controller moves
-- one byte more for each entry; it moves them to or from the sector that the two words name; but the FIS
-- asks for the sectors of the last entry alone.
pub record Transfer (startl starth count buf mode : ℕ) (c : DiskCommand) : Type 0 where
  pub covers : Covers c.prdt_entry buf (512 * count)
  pub moved : bytes_moved c.prdt_entry ≡ 512 * count + c.prdtl
  pub all : c.prdtl ≡ length c.prdt_entry
  pub sector :
      c.cfis.lba0
        + 256
          * (c.cfis.lba1
              + 256 * (c.cfis.lba2 + 256 * (c.cfis.lba3 + 256 * (c.cfis.lba4 + 256 * c.cfis.lba5))))
      ≡ startl + 4294967296 * (starth % 65536)
  pub direction : (c.w ≡ 0) ↔ (c.cfis.command ≡ 0x25)
  pub asked : c.cfis.count ≡ (count - 1) % 16 + 1
