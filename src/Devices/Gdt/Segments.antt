-- ===== src/Devices/Gdt/Segments.antt =====
-- What the processor reads in the table of sys/gdt.c.
use osproject.Prelude.{ℕ, ◌+◌, ◌*◌, ◌/◌, ◌%◌, ◌^◌, ◌<◌, ◌≡◌, arith}
use osproject.Devices.Gdt.{gdt, low_word, high_word, tss_descriptor, init_gdt}

-- The processor's reading of a system descriptor of two words, and of a segment's descriptor.
abbrev pub base_of : ℕ → ℕ → ℕ
base_of low high = low / 2 ^ 16 % 2 ^ 24 + low / 2 ^ 56 % 2 ^ 8 * 2 ^ 24 + high % 2 ^ 32 * 2 ^ 32

abbrev pub limit_of : ℕ → ℕ
limit_of low = low % 2 ^ 16 + low / 2 ^ 48 % 2 ^ 4 * 2 ^ 16

abbrev pub type_of : ℕ → ℕ
type_of low = low / 2 ^ 40 % 2 ^ 4

abbrev pub system_of : ℕ → ℕ
system_of low = low / 2 ^ 44 % 2

abbrev pub dpl_of : ℕ → ℕ
dpl_of low = low / 2 ^ 45 % 4

abbrev pub present_of : ℕ → ℕ
present_of low = low / 2 ^ 47 % 2

-- The entry of a selector.
abbrev pub entry : (ℕ → ℕ) → ℕ → ℕ
entry table selector = table (selector / 8)

-- The descriptor of the task state segment at `tss`: a present system segment of type 9 for the kernel, with
-- its base and its last byte.
pub record IsTask (tss low high : ℕ) : Type 0 where
  pub base : base_of low high ≡ tss
  pub limit : limit_of low ≡ 103
  pub kind : type_of low ≡ 9
  pub system : system_of low ≡ 0
  pub privilege : dpl_of low ≡ 0
  pub present : present_of low ≡ 1

descriptor-IsTask :
    (tss : ℕ)
    → tss < 2 ^ 64
    → IsTask tss (low_word (tss_descriptor tss)) (high_word (tss_descriptor tss))
unfolding tss_descriptor
descriptor-IsTask tss fits = record {
  base = omega (arith, fits);
  limit = omega arith;
  kind = omega arith;
  system = omega arith;
  privilege = omega arith;
  present = omega arith;
}

-- `init_gdt` for any 64-bit address of `tss`: the entry that the task register is loaded with is a present
-- system segment of type 9 whose base is that address and whose last byte is its byte 103, and the six
-- entries in front of it are those of `gdt`.
pub init_gdt-IsTask :
    (tss address : ℕ)
    → tss < 2 ^ 64
    → IsTask tss
        (entry (init_gdt tss address).0 (init_gdt tss address).1.tss_idx)
        ((init_gdt tss address).0 7)
      × ((k : ℕ) → k < 6 → (init_gdt tss address).0 k ≡ gdt k)
unfolding init_gdt
init_gdt-IsTask tss address fits = (descriptor-IsTask tss fits, λ k lt. ground arith)
