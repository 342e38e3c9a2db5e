-- ===== src/Devices/Pci/Scan.antt =====
-- What `checkAllBuses` of sys/pci.c and `probe_port` of sys/ahci.c find.
use mathlib.Core.Path.{subst}
use native.Mathlib.Decide.{ℕ_discrete}
use osproject.Prelude.{
  ℕ, zero, suc, ◌+◌, ◌≤◌, ◌<◌, ◌*◌, ◌/◌, ◌%◌, ◌^◌, ◌≡◌, ◌≢◌, refl, sym, ap, ◌∙◌, ◌⊎◌, ◌↔◌, ◌&&◌,
  inl, inr, List, [], ◌∷◌, ◌++◌, ◌==◌, if◌then◌else◌, Bool-cases, arith,
}
use osproject.Devices.Pci.{
  ConfigSpace, HbaMem, Found, found_at, collect, check_device, get_vendor_id, check_all_buses,
  pci_config_read_word, pci_config_read_long, is_ahci, probe_loop, probe_port,
}
use osproject.Devices.Pci.Address.{config_address_sum}
use osproject.Devices.Disk.{Drive, bit, check_type}
use osproject.Devices.Disk.Slots.{half}

-- `x` stands in a list.
abbrev pub In : {A : Type 0} → A → List A → Type 0
In x [] = ⊥
In x (y ∷ ys) = (x ≡ y) ⊎ In x ys

In-append : {A : Type 0} (x : A) (xs ys : List A) → In x xs ⊎ In x ys → In x (xs ++ ys)
In-append x [] ys (inl h) = absurd h
In-append x [] ys (inr h) = h
In-append x (y ∷ xs) ys (inl (inl e)) = inl e
In-append x (y ∷ xs) ys (inl (inr h)) = inr (In-append x xs ys (inl h))
In-append x (y ∷ xs) ys (inr h) = inr (In-append x xs ys (inr h))

In-split : {A : Type 0} (x : A) (xs ys : List A) → In x (xs ++ ys) → In x xs ⊎ In x ys
In-split x [] ys h = inr h
In-split x (y ∷ xs) ys (inl e) = inl (inl e)
In-split x (y ∷ xs) ys (inr h) = elim (In-split x xs ys h) [ inl a ↦ inl (inr a) | inr b ↦ inr b ]

-- What the loops collect comes from one of their rounds.
abbrev From : Found → ℕ → ℕ → (ℕ → List Found) → Type 0
From x n i body = (k : ℕ) × (i ≤ k) × (k < i + n) × In x (body k)

In-collect :
    (x : Found) (n i : ℕ) (body : ℕ → List Found) → From x n i body → In x (collect n i body)
unfolding collect
In-collect x zero i body (k, low, high, h) = absurd (omega arith)
In-collect x (suc n) i body (k, low, high, h) = elim (ℕ_discrete i k) [
  | yes e ↦
      In-append x (body i) (collect n (i + 1) body) (inl (subst (λ j. In x (body j)) (sym e) h))
  | no other ↦
      In-append x (body i) (collect n (i + 1) body)
        (inr (In-collect x n (i + 1) body (k, omega arith, omega arith, h)))
]

From-collect :
    (x : Found) (n i : ℕ) (body : ℕ → List Found) → In x (collect n i body) → From x n i body
unfolding collect
From-collect x zero i body h = absurd h
From-collect x (suc n) i body h = elim (In-split x (body i) (collect n (i + 1) body) h) [
  | inl here ↦ (i, omega arith, omega arith, here)
  | inr there ↦
      let (k, low, high, found) = From-collect x n (i + 1) body there in
      (k, omega arith, omega arith, found)
]

-- The register of four bytes at an offset, by the address that the bus has for it.
abbrev pub register : ConfigSpace → ℕ → ℕ → ℕ → ℕ → ℕ
register space bus device fun offset =
    space (2147483648 + (((bus * 32 + device) * 8 + fun) * 256 + offset)) % 4294967296

-- The ports from `i` on that a controller implements, with the kinds of their drives.
abbrev pub implemented : HbaMem → ℕ → ℕ → List (ℕ × Drive)
implemented abar zero i = []
implemented abar (suc n) i =
    let rest = implemented abar n (i + 1) in
    if bit i abar.pi then (i, check_type (abar.ports i)) ∷ rest else rest

-- What is to be reported of a device: its numbers, the two words of its first register, and for class 1 and
-- subclass 6, an AHCI controller, the ports implemented at the address in its register 0x24.
abbrev pub reported : ConfigSpace → (ℕ → HbaMem) → ℕ → ℕ → ℕ → Found
reported space hba bus device fun = record {
  bus = bus;
  device = device;
  fun = fun;
  device_id = register space bus device fun 0 / 65536;
  vendor_id = register space bus device fun 0 % 65536;
  drives =
      if register space bus device fun 8 / 65536 == 0x0106
      then implemented (hba (register space bus device fun 0x24)) 32 0
      else [];
}

probe_loop-implemented :
    (n i w : ℕ) (abar : HbaMem) → w ≡ abar.pi / 2 ^ i → probe_loop n i w abar ≡ implemented abar n i
unfolding probe_loop
probe_loop-implemented zero i w abar e = refl
probe_loop-implemented (suc n) i w abar e =
    let next : w / 2 ≡ abar.pi / 2 ^ (i + 1) = ap (λ (x : ℕ). x / 2) e ∙ half i abar.pi in
    let rest = probe_loop-implemented n (i + 1) (w / 2) abar next in
    let same : (w % 2 == 1) ≡ bit i abar.pi = ap (λ (x : ℕ). x % 2 == 1) e in rw (same, rest) refl

module _ (space : ConfigSpace) (bus device fun : ℕ) (hb : bus < 255) (hd : device < 32)
    (hf : fun < 7) where
  read_long-register :
      (offset word : ℕ)
      → offset < 256
      → offset / 4 * 4 ≡ word
      → pci_config_read_long space bus device fun offset ≡ register space bus device fun word
  unfolding pci_config_read_long
  read_long-register offset word small e =
      ap (λ (x : ℕ). space x % 4294967296)
        (config_address_sum bus device fun offset (omega arith) hd (omega arith) small
          ∙ ap (λ (x : ℕ). 2147483648 + (((bus * 32 + device) * 8 + fun) * 256 + x)) e)

  read_word_low :
      pci_config_read_word space bus device fun 0 ≡ register space bus device fun 0 % 65536
  unfolding pci_config_read_word
  read_word_low = rw (read_long-register 0 0 (omega arith) refl) (omega arith)

  read_word_high :
      (offset word : ℕ)
      → offset < 256
      → offset / 4 * 4 ≡ word
      → offset / 2 % 2 ≡ 1
      → pci_config_read_word space bus device fun offset
        ≡ register space bus device fun word / 65536
  unfolding pci_config_read_word
  read_word_high offset word small e high =
      rw (read_long-register offset word small e, high) (omega arith)

  found_at-reported :
      (hba : ℕ → HbaMem) → found_at space hba bus device fun ≡ reported space hba bus device fun
  unfolding found_at is_ahci probe_port
  found_at-reported hba =
      rw
        (
          read_word_low,
          read_word_high 2 0 (omega arith) refl refl,
          read_word_high 10 8 (omega arith) refl refl,
          read_long-register 0x24 0x24 (omega arith) refl,
          test (register space bus device fun 8 / 65536),
          probe_loop-implemented 32 0 (HbaMem.pi (hba (register space bus device fun 0x24)))
              (hba (register space bus device fun 0x24)) (omega arith),
        )
        refl
    where
      test : (w : ℕ) → ((w % 256 == 0x06) && (w / 256 == 0x01)) ≡ (w == 0x0106)
      test w = ground arith

-- A device that is reported is there, and what is reported of it is `found_at`.
device-In :
    (space : ConfigSpace) (hba : ℕ → HbaMem) (bus device fun : ℕ) (x : Found)
    → In x (check_device space hba bus device fun) ↔ (
        (pci_config_read_word space bus device fun 0 ≢ 0xFFFF)
        × (x ≡ found_at space hba bus device fun))
unfolding check_device get_vendor_id
device-In space hba bus device fun x =
    elim (Bool-cases (pci_config_read_word space bus device fun 0 == 0xFFFF)) [
      | inl gone ↦
          rw (gone, check_device, get_vendor_id)
            (λ h. absurd h, λ h. absurd (h.0 (ground (arith, gone))))
      | inr there ↦
          rw (there, check_device, get_vendor_id)
            (λ h. (λ e. ground (arith, there, e), only h), λ h. inl h.1)
    ]
  where
    only : In x (found_at space hba bus device fun ∷ []) → x ≡ found_at space hba bus device fun
    only (inl e) = e
    only (inr h) = absurd h

-- `checkAllBuses` reports a device exactly when it stands on a bus below 255, at a device number below 32,
-- as a function below 7, and the low word of its first register, its vendor, is not 0xFFFF; what is
-- reported are its numbers, that register's two words and, if the upper word of register 8 gives
-- class 1 and subclass 6, the ports that the controller at the address in register 0x24 implements.
pub check_all_buses-In :
    (space : ConfigSpace) (hba : ℕ → HbaMem) (x : Found)
    → In x (check_all_buses space hba) ↔ (
        (bus : ℕ) × (device : ℕ) × (fun : ℕ) × (bus < 255)
        × (device < 32)
        × (fun < 7)
        × (register space bus device fun 0 % 65536 ≢ 0xFFFF)
        × (x ≡ reported space hba bus device fun))
unfolding check_all_buses
check_all_buses-In space hba x = (
  λ h.
      let (bus, _, hb, h1) =
        From-collect x 255 0
          (λ bus.
            collect 32 0 (λ device. collect 7 0 (λ fun. check_device space hba bus device fun)))
          h in
      let (device, _, hd, h2) =
        From-collect x 32 0 (λ device. collect 7 0 (λ fun. check_device space hba bus device fun))
          h1 in
      let (fun, _, hf, h3) = From-collect x 7 0 (λ fun. check_device space hba bus device fun) h2 in
      let (there, same) = (device-In space hba bus device fun x).0 h3 in
      (
        bus,
        device,
        fun,
        omega arith,
        omega arith,
        omega arith,
        (λ e.
            there
              (read_word_low space bus device fun (omega arith) (omega arith) (omega arith) ∙ e)),
        same ∙ found_at-reported space bus device fun (omega arith) (omega arith) (omega arith) hba,
      ),
  λ (bus, device, fun, hb, hd, hf, there, same). In-collect x 255 0 _ (
    bus,
    omega arith,
    omega arith,
    In-collect x 32 0 _ (
      device,
      omega arith,
      omega arith,
      In-collect x 7 0 _ (
        fun,
        omega arith,
        omega arith,
        (device-In space hba bus device fun x).1 (
          (λ e. there (sym (read_word_low space bus device fun hb hd hf) ∙ e)),
          same ∙ sym (found_at-reported space bus device fun hb hd hf hba),
        ),
      ),
    ),
  ),
)
