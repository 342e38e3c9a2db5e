-- ===== src/Examples/Devices.antt =====
-- An interrupt table and a disk, and the theorems of idt.c and ahci.c on them.
use osproject.Prelude.{ℕ, ◌+◌, ◌*◌, ◌<◌, ◌≡◌, refl, true, some, ltb, if◌then◌else◌, arith}
use osproject.Devices.Interrupts.{Gate, Handlers, init_idt, Served, init_idt-Served}
use osproject.Devices.Disk.{Port, Controller, find_cmdslot, disk_command, issued, readorwrite}
use osproject.Devices.Disk.Transfer.{Transfer}
use osproject.Devices.Disk.Polling.{DoneAt, readorwrite_done}

abbrev handlers : Handlers
handlers = record {
  isr = λ i. 0xffffffff80200000 + 16 * i;
  timer = 0xffffffff80201000;
  kb1 = 0xffffffff80201100;
}

abbrev empty_table : ℕ → Gate
empty_table i = record {
  lower_offset = 0;
  selector = 0;
  zero_1 = 0;
  type = 0;
  mid_offset = 0;
  high_offset = 0;
  zero_2 = 0;
}

init_idt-Served_example : Served handlers empty_table 128 (init_idt handlers empty_table 128)
init_idt-Served_example = init_idt-Served handlers empty_table 128 (omega arith)

-- Slots 0 and 1 are taken.
abbrev port : Port
port = record { sact = 1; ci = 2; ssts = 0x113; sig = 0x101 }

-- The port is busy for three readings, and the command in slot 2 takes five rounds.
abbrev controller : Controller
controller = record {
  tfd = λ n. if ltb n 3 then 128 else 0;
  ci = λ n. if ltb n 5 then 4 else 0;
  is_rwc = λ n. 0;
}

controller-DoneAt : DoneAt 2 controller 5
controller-DoneAt = record {
  clear = refl;
  waiting = λ n lt. rw (early n lt) refl;
  no_error = λ n le. refl;
}
  where
    early : (n : ℕ) → n < 5 → ltb n 5 ≡ true
    early n lt = ground arith

readorwrite_done_example :
    readorwrite 10 port controller 5 0 8 0x100000 0
    ≡ some (issued 2 (disk_command 5 0 8 0x100000 0) true)
unfolding find_cmdslot
readorwrite_done_example =
    readorwrite_done 10 port controller 5 0 8 0x100000 0 2 3 5 refl (omega arith) refl
      controller-DoneAt (omega arith)
