-- ===== src/Devices/Pci.antt =====
-- sys/pci.c, and `probe_port` of sys/ahci.c: how the kernel looks for disks. What a register of the
-- configuration space holds is a parameter, a function of the address that was written before.
pub mod Address
pub mod Scan
use osproject.Prelude.{
  ℕ, zero, suc, ◌+◌, ◌-◌, ◌*◌, ◌/◌, ◌%◌, ◌^◌, Bool, true, false, ◌&&◌, List, [], ◌∷◌, ◌++◌, ltb,
  ◌==◌, if◌then◌else◌,
}
use osproject.Devices.Disk.{Port, Drive, check_type}

-- `a | b` of words with `n` bits.
unfoldable pub or_bits : ℕ → ℕ → ℕ → ℕ
or_bits zero a b = 0
or_bits (suc n) a b =
    (if (a % 2 == 0) && (b % 2 == 0) then 0 else 1) + 2 * or_bits n (a / 2) (b / 2)

-- The address of a register: `lbus << 16 | lslot << 11 | lfunc << 8 | offset & 0xfc | 0x80000000`.
unfoldable pub config_address : ℕ → ℕ → ℕ → ℕ → ℕ
config_address bus slot func offset =
    or_bits 32
      (or_bits 32 (or_bits 32 (or_bits 32 (bus * 65536) (slot * 2048)) (func * 256))
        (offset / 4 * 4 % 256))
      0x80000000

-- The registers: what `inl` of 0xCFC gives for an address.
abbrev pub ConfigSpace : Type 0
ConfigSpace = ℕ → ℕ

unfoldable pub pci_config_read_long : ConfigSpace → ℕ → ℕ → ℕ → ℕ → ℕ
pci_config_read_long space bus slot func offset =
    space (config_address bus slot func offset) % 4294967296

-- The first word for an offset with bit 1 clear, else the second.
unfoldable pub pci_config_read_word : ConfigSpace → ℕ → ℕ → ℕ → ℕ → ℕ
pci_config_read_word space bus slot func offset =
    pci_config_read_long space bus slot func offset / 2 ^ (offset / 2 % 2 * 2 * 8) % 65536

-- `pciConfigWrite`: the space after it.
unfoldable pub pci_config_write : ConfigSpace → ℕ → ℕ → ℕ → ℕ → ℕ → ConfigSpace
pci_config_write space bus slot func offset write_val address =
    if address == config_address bus slot func offset then write_val else space address

-- `hba_mem_t`, as far as it is read.
pub record HbaMem : Type 0 where
  pub pi : ℕ
  pub ports : ℕ → Port

-- The loop of `probe_port` from port `i` on, with what is left of `pi`: the ports it names and what it
-- finds there.
unfoldable pub probe_loop : ℕ → ℕ → ℕ → HbaMem → List (ℕ × Drive)
probe_loop zero i pi abar = []
probe_loop (suc n) i pi abar =
    let rest = probe_loop n (i + 1) (pi / 2) abar in
    if pi % 2 == 1 then (i, check_type (abar.ports i)) ∷ rest else rest

unfoldable pub probe_port : HbaMem → List (ℕ × Drive)
probe_port abar = probe_loop 32 0 abar.pi abar

-- What `getVendorID` reports: a device, and for an AHCI controller its drives.
pub record Found : Type 0 where
  pub bus : ℕ
  pub device : ℕ
  pub fun : ℕ
  pub device_id : ℕ
  pub vendor_id : ℕ
  pub drives : List (ℕ × Drive)

-- The test of the class and the subclass: 1 and 6.
unfoldable pub is_ahci : ConfigSpace → ℕ → ℕ → ℕ → Bool
is_ahci space bus slot fun =
    let class_word = pci_config_read_word space bus slot fun 10 in
    (class_word % 256 == 0x06) && (class_word / 256 == 0x01)

-- What is reported of a device that is there; the memory at an address is a parameter.
unfoldable pub found_at : ConfigSpace → (ℕ → HbaMem) → ℕ → ℕ → ℕ → Found
found_at space hba bus slot fun = record {
  bus = bus;
  device = slot;
  fun = fun;
  device_id = pci_config_read_word space bus slot fun 2;
  vendor_id = pci_config_read_word space bus slot fun 0;
  drives =
      if is_ahci space bus slot fun
      then probe_port (hba (pci_config_read_long space bus slot fun 0x24))
      else [];
}

-- `getVendorID`, called by `checkDevice`, which does nothing more.
unfoldable pub get_vendor_id : ConfigSpace → (ℕ → HbaMem) → ℕ → ℕ → ℕ → List Found
get_vendor_id space hba bus slot fun =
    if pci_config_read_word space bus slot fun 0 == 0xFFFF
    then []
    else found_at space hba bus slot fun ∷ []

unfoldable pub check_device : ConfigSpace → (ℕ → HbaMem) → ℕ → ℕ → ℕ → List Found
check_device space hba bus device fun = get_vendor_id space hba bus device fun

-- The three loops of `checkAllBuses`, each with what is left of its rounds.
unfoldable pub collect : ℕ → ℕ → (ℕ → List Found) → List Found
collect zero i body = []
collect (suc n) i body = body i ++ collect n (i + 1) body

unfoldable pub check_all_buses : ConfigSpace → (ℕ → HbaMem) → List Found
check_all_buses space hba =
    collect 255 0
      (λ bus. collect 32 0 (λ device. collect 7 0 (λ fun. check_device space hba bus device fun)))
