-- ===== src/Examples/Buses.antt =====
-- The configuration space of sys/pci.c with one AHCI controller.
use osproject.Prelude.{ℕ, ◌/◌, ◌%◌, ◌<◌, ◌≡◌, ◌≢◌, ◌↔◌, refl, [], ◌∷◌, ◌==◌, if◌then◌else◌, arith}
use osproject.Devices.Disk.{Port, sata, check_type}
use osproject.Devices.Pci.{
  ConfigSpace, HbaMem, or_bits, config_address, check_all_buses, probe_port, probe_loop,
  pci_config_read_word, pci_config_read_long, pci_config_write,
}
use osproject.Devices.Pci.Address.{config_address-fields}
use osproject.Devices.Pci.Scan.{In, register, reported, check_all_buses-In}

config_address-fields_example :
    (config_address 3 31 2 0x24 / 65536 % 256 ≡ 3)
    × (config_address 3 31 2 0x24 / 2048 % 32 ≡ 31)
    × (config_address 3 31 2 0x24 / 256 % 8 ≡ 2)
    × (config_address 3 31 2 0x24 % 256 ≡ 0x24)
    × (config_address 3 31 2 0x24 / 2147483648 ≡ 1)
config_address-fields_example =
    config_address-fields 3 31 2 0x24 (omega arith) (omega arith) (omega arith) (omega arith)

-- Device 31 of bus 0, function 2.
abbrev space : ConfigSpace
space address =
    if address == 0x8000FA00
    then 0x29228086
    else if address == 0x8000FA08
    then 0x01060002
    else if address == 0x8000FA24
    then 0xFEBF1000
    else 0xFFFFFFFF

abbrev drive_port : Port
drive_port = record { sact = 0; ci = 0; ssts = 0x113; sig = 0x101 }

abbrev hba : ℕ → HbaMem
hba address = record { pi = 2; ports = λ i. drive_port }

check_all_buses-In_example : In (reported space hba 0 31 2) (check_all_buses space hba) ↔ (
    (bus : ℕ) × (device : ℕ) × (fun : ℕ) × (bus < 255)
    × (device < 32)
    × (fun < 7)
    × (register space bus device fun 0 % 65536 ≢ 0xFFFF)
    × (reported space hba 0 31 2 ≡ reported space hba bus device fun))
check_all_buses-In_example = check_all_buses-In space hba (reported space hba 0 31 2)

reported_example : (reported space hba 0 31 2).drives ≡ (1, sata) ∷ []
unfolding check_type
reported_example = refl

vendor_example : pci_config_read_word space 0 31 2 0 ≡ 0x8086
unfolding pci_config_read_word pci_config_read_long config_address or_bits
vendor_example = refl

class_example : pci_config_read_word space 0 31 2 10 ≡ 0x0106
unfolding pci_config_read_word pci_config_read_long config_address or_bits
class_example = refl

probe_port_example : probe_port (hba 0) ≡ (1, sata) ∷ []
unfolding probe_port probe_loop check_type
probe_port_example = refl

write_example : pci_config_read_long (pci_config_write space 0 31 2 0x24 7) 0 31 2 0x24 ≡ 7
unfolding pci_config_read_long pci_config_write config_address or_bits
write_example = refl
