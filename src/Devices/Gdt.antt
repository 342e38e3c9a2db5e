-- ===== src/Devices/Gdt.antt =====
-- sys/gdt.c: the segment descriptors, and the descriptor of the task state segment that `init_gdt` writes.
pub mod Segments
use osproject.Prelude.{
  ℕ, ◌+◌, ◌-◌, ◌*◌, ◌/◌, ◌%◌, ◌^◌, Bool, true, false, List, [], ◌∷◌, ◌==◌, if◌then◌else◌, Option,
  none, some,
}
use osproject.Prelude.Loops.{update}

-- The bits of a descriptor: code, data, privilege 3, present, long mode, writable.
abbrev pub gdt_cs : ℕ
gdt_cs = 0x00180000000000

abbrev pub gdt_ds : ℕ
gdt_ds = 0x00100000000000

abbrev pub dpl3 : ℕ
dpl3 = 0x00600000000000

abbrev pub present_bit : ℕ
present_bit = 0x00800000000000

abbrev pub long_bit : ℕ
long_bit = 0x20000000000000

abbrev pub writable_bit : ℕ
writable_bit = 0x00020000000000

-- `gdt`: the bits of an entry do not meet, and `|` is their sum.
unfoldable pub gdt : ℕ → ℕ
gdt k =
    if k == 1
    then gdt_cs + present_bit + long_bit
    else if k == 2
    then gdt_ds + present_bit + writable_bit
    else if k == 4
    then gdt_ds + present_bit + writable_bit + dpl3
    else if k == 5
    then gdt_cs + present_bit + dpl3 + long_bit
    else 0

-- `struct sys_segment_descriptor`, without its reserved fields, which stay 0.
pub record SysSegmentDescriptor : Type 0 where
  pub sd_lolimit : ℕ
  pub sd_lobase : ℕ
  pub sd_type : ℕ
  pub sd_dpl : ℕ
  pub sd_p : ℕ
  pub sd_hilimit : ℕ
  pub sd_gran : ℕ
  pub sd_hibase : ℕ

-- The two words that its bit fields make up; `sd_hibase` begins at bit 56.
abbrev pub low_word : SysSegmentDescriptor → ℕ
low_word sd =
    sd.sd_lolimit
    + sd.sd_lobase * 2 ^ 16
    + sd.sd_type * 2 ^ 40
    + sd.sd_dpl * 2 ^ 45
    + sd.sd_p * 2 ^ 47
    + sd.sd_hilimit * 2 ^ 48
    + sd.sd_gran * 2 ^ 55
    + sd.sd_hibase % 256 * 2 ^ 56

abbrev pub high_word : SysSegmentDescriptor → ℕ
high_word sd = sd.sd_hibase / 256

-- `sizeof(struct tss_t)`.
abbrev pub tss_bytes : ℕ
tss_bytes = 104

-- What `init_gdt` puts into the fields, cut to their widths, for the address of `tss`.
unfoldable pub tss_descriptor : ℕ → SysSegmentDescriptor
tss_descriptor tss = record {
  sd_lolimit = (tss_bytes - 1) % 2 ^ 16;
  sd_lobase = tss % 2 ^ 24;
  sd_type = 9;
  sd_dpl = 0;
  sd_p = 1;
  sd_hilimit = 0;
  sd_gran = 0;
  sd_hibase = tss / 2 ^ 24 % 2 ^ 40;
}

-- The registers that `init_gdt` loads: the table's limit and address, the code and data segments, the task.
pub record Loaded : Type 0 where
  pub size : ℕ
  pub addr : ℕ
  pub cs_idx : ℕ
  pub ds_idx : ℕ
  pub tss_idx : ℕ

-- `init_gdt`: the table after it, and what is loaded.
unfoldable pub init_gdt : ℕ → ℕ → (ℕ → ℕ) × Loaded
init_gdt tss address =
    let sd = tss_descriptor tss in
    (
      update (update gdt 6 (low_word sd)) 7 (high_word sd),
      record { size = 32 * 8; addr = address; cs_idx = 8; ds_idx = 16; tss_idx = 0x30 },
    )

-- `tss_t`, as far as it is used, and `set_tss_rsp`.
pub record Tss : Type 0 where
  pub rsp0 : ℕ

unfoldable pub set_tss_rsp : ℕ → Tss → Tss
set_tss_rsp rsp tss = record tss { rsp0 = rsp }
