-- ===== src/Examples/Drives.antt =====
-- Runs of the model of sys/ide.c with one drive and with four.
use osproject.Prelude.{
  ℕ, ◌%◌, ◌≤◌, ◌≡◌, ◌≢◌, ◌⊎◌, refl, inl, inr, true, Option, none, some, List, [], ◌==◌,
  if◌then◌else◌, arith,
}
use osproject.Devices.Ide.{
  Channel, IdeDevice, Event, Drives, Ide, port_of, write_reg, read_reg, ide_write, ide_read,
  ide_read_buffer, wait_while, status_code, ide_polling, ide_print_error,
}
use osproject.Prelude.State.{for_op}
use osproject.Devices.Ide.Access.{
  address_of, send_command, command_of, select_of, write_high, disable_irqs, transfer, read_loop,
  write_loop, insw_sector, outsw_sector, ide_ata_access, ide_read_sectors, ide_write_sectors,
}
use osproject.Devices.Ide.Writes.{IsPlaced, sent}
use osproject.Devices.Ide.Address.{Told, send_command-Told}
use osproject.Devices.Ide.Quiet.{received, sent_blocks}
use osproject.Devices.Ide.Outcome.{places, images}
use osproject.Devices.Ide.Sectors.{ide_read_sectors-places, ide_write_sectors-images}
use osproject.Devices.Ide.Ready.{Answers, status_port}
use osproject.Devices.Ide.Return.{sectors-return}
use osproject.Devices.Ide.Setup.{
  wait_identify, device_type, described, model_of, settle, probe_drive, probe_drives,
}
use osproject.Devices.Ide.Numbered.{IsNumbered, probe_drives-IsNumbered}

abbrev no_drive : IdeDevice
no_drive = record {
  reserved = 0;
  channel = 0;
  drive = 0;
  kind = 0;
  signature = 0;
  capabilities = 0;
  command_sets = 0;
  size = 0;
  model = [];
}

-- The second drive of the first channel, with 1000 sectors.
abbrev disk : IdeDevice
disk = record no_drive { reserved = 1; drive = 1; capabilities = 0x200; size = 1000 }

abbrev primary : Channel
primary = record { base = 0x1F0; ctrl = 0x3F4; bmide = 0; n_ien = 0 }

abbrev machine : Ide
machine = record {
  ide_devices = λ k. if k == 0 then disk else no_drive;
  channels = λ k. primary;
  ide_buf = λ k. 0;
  package_0 = 0;
  ide_irq_invoked = 0;
  memory = λ k. k % 256;
  events = [];
}

-- A drive that is ready whenever it is asked.
abbrev ready_drives : Drives
ready_drives = record { answer = λ es p. 0x48; block = λ es p k. 7; interrupt = λ es n. true }

ready_drives-Answers : Answers ready_drives 1 (status_port 0 machine)
unfolding status_code
ready_drives-Answers = record { idle = λ es. (0, omega arith, refl) }

sectors-return_example :
    ((r : Ide) × (ide_read_sectors 1 ready_drives 0 2 5 0x1000 machine ≡ some (tt, r))
      × ((r.package_0 ≢ 0) ⊎ (received r.events ≡ places 0x1000 2 0 (received machine.events))))
    × ((w : Ide) × (ide_write_sectors 1 ready_drives 0 2 5 0x1000 machine ≡ some (tt, w))
        × (w.package_0 ≡ 0)
        × (sent_blocks w.events ≡ images machine.memory 0x1000 2 0 (sent_blocks machine.events)))
sectors-return_example =
    sectors-return 1 ready_drives 1 0 2 5 0x1000 machine refl refl refl ready_drives-Answers
      (omega arith)

primary-IsPlaced : IsPlaced primary
primary-IsPlaced = record { fits = omega arith; apart = inr (omega arith); ctrl_fits = omega arith }

-- A sector that takes LBA48, for the second drive.
send_command-Told_example :
    (es : List Event) × (send_command 0 0 1 (address_of 0x200 0x12345678) 3 machine
      ≡ sent machine es)
    × Told primary 1 0x12345678 3 es
send_command-Told_example =
    send_command-Told 0 0 1 0x200 0x12345678 3 machine primary-IsPlaced (omega arith)
      (omega arith, inl (inl refl))

-- What a run leaves.
abbrev left_by : Option (Unit {0} × Ide) → Ide
left_by none = machine
left_by (some (u, s)) = s

abbrev read_one : Ide
read_one = left_by (ide_read_sectors 1 ready_drives 0 1 5 0x1000 machine)

ide_read_sectors-places_example :
    (0 ≤ 3)
    × (disk.reserved ≢ 0)
    × (6 % 4294967296 ≤ disk.size)
    × (received read_one.events ≡ places 0x1000 1 0 (received machine.events))
unfolding ide_read_sectors ide_ata_access ide_print_error disable_irqs wait_while ide_polling
    status_code send_command write_high command_of select_of address_of transfer read_loop
    insw_sector ide_read ide_write write_reg read_reg port_of for_op
ide_read_sectors-places_example =
    ide_read_sectors-places 1 ready_drives 0 1 5 0x1000 machine read_one refl refl refl

abbrev written_one : Ide
written_one = left_by (ide_write_sectors 1 ready_drives 0 1 5 0x1000 machine)

ide_write_sectors-images_example :
    (written_one.package_0 ≡ 0)
    × (sent_blocks written_one.events
        ≡ images machine.memory 0x1000 1 0 (sent_blocks machine.events))
unfolding ide_write_sectors ide_ata_access ide_print_error disable_irqs wait_while ide_polling
    status_code send_command write_high command_of select_of address_of transfer write_loop
    outsw_sector ide_read ide_write write_reg read_reg port_of for_op
ide_write_sectors-images_example =
    ide_write_sectors-images 1 ready_drives 0 1 5 0x1000 machine written_one refl refl refl refl

-- Four drives answer.
abbrev bare : Ide
bare = record machine { ide_devices = λ k. no_drive }

abbrev counted : Option (ℕ × Ide) → ℕ × Ide
counted none = (0, machine)
counted (some r) = r

probe_drives-IsNumbered_example :
    IsNumbered (counted (probe_drives 1 ready_drives bare)).1.ide_devices 4 4
unfolding probe_drives probe_drive wait_identify device_type settle described model_of
    ide_read_buffer ide_read ide_write write_reg read_reg port_of
probe_drives-IsNumbered_example =
    probe_drives-IsNumbered 1 ready_drives bare (counted (probe_drives 1 ready_drives bare)).1 4
      (λ k. refl) refl

-- Without a PCI address for it the control register is looked for at 0x3F8, past the port 0x3F6.
control_port_example : port_of (record primary { ctrl = 0x3F6 }) 0x0C ≡ some 0x3F8
unfolding port_of
control_port_example = refl
