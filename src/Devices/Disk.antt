-- ===== src/Devices/Disk.antt =====
-- sys/ahci.c, lines 60-226: `find_cmdslot`, `check_type` and `readorwrite`. What the controller answers is
-- a parameter, the command that is built for it a value.
pub mod Slots
pub mod Transfer
pub mod Polling
use osproject.Prelude.{
  ℕ, zero, suc, ◌+◌, ◌-◌, ◌*◌, ◌/◌, ◌%◌, ◌^◌, Bool, true, false, ◌&&◌, ◌||◌, not, Option, none,
  some, List, [], ◌∷◌, ◌==◌, if◌then◌else◌,
}

-- The registers of `hba_port_t` that are read before a command is issued.
pub record Port : Type 0 where
  pub sact : ℕ
  pub ci : ℕ
  pub ssts : ℕ
  pub sig : ℕ

-- Bit `i` of a word.
abbrev pub bit : ℕ → ℕ → Bool
bit i w = w / 2 ^ i % 2 == 1

-- The loop of `find_cmdslot`: what is left of both words after `i` shifts of their disjunction.
unfoldable pub find_slot : ℕ → ℕ → ℕ → ℕ → Option ℕ
find_slot zero i sact ci = none
find_slot (suc n) i sact ci =
    let rest = find_slot n (i + 1) (sact / 2) (ci / 2) in
    if (sact % 2 == 0) && (ci % 2 == 0) then some i else rest

-- `find_cmdslot`; `none` is -1.
unfoldable pub find_cmdslot : Port → Option ℕ
unfolding find_slot
find_cmdslot port = find_slot 32 0 port.sact port.ci

-- The kinds of drive, `AHCI_DEV_*`.
pub data Drive : Type 0 where
  null sata satapi semb pm : Drive

-- `check_type`.
unfoldable pub check_type : Port → Drive
check_type port =
    if not (port.ssts % 16 == 3)
    then null
    else if not (port.ssts / 256 % 16 == 1)
    then null
    else if port.sig == 0xEB140101
    then satapi
    else if port.sig == 0xC33C0101
    then semb
    else if port.sig == 0x96690101
    then pm
    else sata

-- `hba_prdt_entry_t`.
pub record Prdt : Type 0 where
  pub dba : ℕ
  pub dbc : ℕ
  pub i : ℕ

-- The fields of `fis_reg_h2d_t` that `readorwrite` sets; the others are 0.
pub record Fis : Type 0 where
  pub fis_type : ℕ
  pub c : ℕ
  pub command : ℕ
  pub lba0 : ℕ
  pub lba1 : ℕ
  pub lba2 : ℕ
  pub device : ℕ
  pub lba3 : ℕ
  pub lba4 : ℕ
  pub lba5 : ℕ
  pub count : ℕ

-- What `readorwrite` writes into the command header and the command table.
pub record DiskCommand : Type 0 where
  pub cfl : ℕ
  pub w : ℕ
  pub prdtl : ℕ
  pub prdt_entry : List Prdt
  pub cfis : Fis

-- `cmdheader->prdtl`.
abbrev pub prdtl_of : ℕ → ℕ
prdtl_of count = ((count + 4294967295) % 4294967296 / 16 % 65536 + 1) % 65536

-- The loop over the entries, and the last entry, whose `dbc` has 22 bits.
unfoldable pub entries : ℕ → ℕ → ℕ → List Prdt
entries zero buf count = record { dba = buf; dbc = count * 512 % 4294967296 % 4194304; i = 1 } ∷ []
entries (suc n) buf count =
    record { dba = buf; dbc = 8192; i = 1 }
    ∷ entries n ((buf + 8192) % 18446744073709551616) ((count + 4294967280) % 4294967296)

-- The command FIS: the loop has taken 16 off `count` in each of its rounds.
unfoldable pub fis_of : ℕ → ℕ → ℕ → ℕ → Fis
fis_of startl starth left mode = record {
  fis_type = 0x27;
  c = 1;
  command = if mode == 0 then 0x25 else 0x35;
  lba0 = startl % 256;
  lba1 = startl / 256 % 256;
  lba2 = startl / 65536 % 256;
  device = 64;
  lba3 = startl / 16777216 % 256;
  lba4 = starth % 256;
  lba5 = starth / 256 % 256;
  count = left % 65536;
}

-- `count` after the loop.
unfoldable pub count_left : ℕ → ℕ → ℕ
count_left zero count = count
count_left (suc n) count = count_left n ((count + 4294967280) % 4294967296)

-- The command that `readorwrite` builds.
unfoldable pub disk_command : ℕ → ℕ → ℕ → ℕ → ℕ → DiskCommand
unfolding entries fis_of count_left
disk_command startl starth count buf mode =
    let rounds = prdtl_of count - 1 in
    record {
      cfl = 5;
      w = if mode == 0 then 0 else 1;
      prdtl = prdtl_of count;
      prdt_entry = entries rounds buf count;
      cfis = fis_of startl starth (count_left rounds count) mode;
    }

-- What the controller answers: the n-th reading of `tfd`, and of `ci` and `is_rwc` once a command is issued.
pub record Controller : Type 0 where
  pub tfd : ℕ → ℕ
  pub ci : ℕ → ℕ
  pub is_rwc : ℕ → ℕ

-- The loop that waits until the port is not busy; its bound is its fuel.
unfoldable pub spin_from : ℕ → ℕ → Controller → ℕ
spin_from zero spin hba = spin
spin_from (suc n) spin hba = elim (bit 7 (hba.tfd spin) || bit 3 (hba.tfd spin)) [
  | true ↦ spin_from n (spin + 1) hba
  | false ↦ spin
]

-- The loop that waits for completion, for `fuel` rounds from round `n` on; `none` goes on waiting.
unfoldable pub complete : ℕ → ℕ → ℕ → Controller → Option Bool
complete zero n slot hba = none
complete (suc fuel) n slot hba = elim (bit slot (hba.ci n)) [
  | false ↦ some (not (bit 30 (hba.is_rwc n)))
  | true ↦ elim (bit 30 (hba.is_rwc n)) [
    | true ↦ some false
    | false ↦ complete fuel (n + 1) slot hba
  ]
]

-- How `readorwrite` ends: without a slot, with the port hung, or with its value and what it issued.
pub data Ending : Type 0 where
  no_slot hung : Ending
  issued : ℕ → DiskCommand → Bool → Ending

-- `readorwrite`; `none` is a wait longer than `fuel` rounds.
unfoldable pub readorwrite : ℕ → Port → Controller → ℕ → ℕ → ℕ → ℕ → ℕ → Option Ending
unfolding find_cmdslot disk_command spin_from complete
readorwrite fuel port hba startl starth count buf mode = elim (find_cmdslot port) [
  | none ↦ some no_slot
  | some slot ↦ elim (spin_from 1000000 0 hba == 1000000) [
    | true ↦ some hung
    | false ↦ elim (complete fuel 0 slot hba) [
      | none ↦ none
      | some result ↦ some (issued slot (disk_command startl starth count buf mode) result)
    ]
  ]
]
