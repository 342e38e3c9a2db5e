-- ===== src/Devices/Ide/Setup.antt =====
-- sys/ide.c, lines 156-270 and 282-340: `ide_initialize` and `ide_atapi_read`.
use osproject.Prelude.{
  ℕ, zero, suc, ◌+◌, ◌*◌, ◌/◌, ◌%◌, Bool, true, false, ◌&&◌, ◌||◌, not, Option, none, some, List,
  [], ◌∷◌, ◌==◌, if◌then◌else◌,
}
use osproject.Prelude.State.{Op, pure, ◌>>=◌, ◌>>◌, for_op}
use osproject.Prelude.Loops.{update}
use osproject.Devices.Disk.{bit}
use osproject.Devices.Ide.{
  IdeDevice, Drives, Ide, ins, outs, fill, ide_write, ide_read, ide_read_buffer, wait_while,
  ide_polling, wait_irq, ignore_status,
}
use osproject.Devices.Ide.Access.{ide_read_sectors, ide_write_sectors}

-- `(BAR & 0xFFFFFFFC) + port * (!BAR)`, in 16 bits.
abbrev pub bar_port : ℕ → ℕ → ℕ
bar_port bar port = (bar / 4 * 4 + (if bar == 0 then port else 0)) % 65536

unfoldable pub set_channels : ℕ → ℕ → ℕ → ℕ → ℕ → Op Ide (Unit {0})
set_channels bar0 bar1 bar2 bar3 bar4 s = some (
  tt,
  record s {
    channels = λ k.
        if k == 0
        then record {
          base = bar_port bar0 0x1F0;
          ctrl = bar_port bar1 0x3F6;
          bmide = bar4 / 4 * 4 % 65536;
          n_ien = (s.channels 0).n_ien;
        }
        else if k == 1
        then record {
          base = bar_port bar2 0x170;
          ctrl = bar_port bar3 0x376;
          bmide = (bar4 / 4 * 4 + 8) % 65536;
          n_ien = (s.channels 1).n_ien;
        }
        else s.channels k;
  },
)

-- The loop that waits for the answer to IDENTIFY; its value is `err`.
unfoldable pub wait_identify : ℕ → Drives → ℕ → Op Ide ℕ
wait_identify zero hw i = λ s. none
wait_identify (suc fuel) hw i = do
  status ← ide_read hw i 0x07
  elim (bit 0 status) [
    | true ↦ pure 1
    | false ↦ elim (not (bit 7 status) && bit 3 status) [
      | true ↦ pure 0
      | false ↦ wait_identify fuel hw i
    ]
  ]

-- The two signatures of a drive of type ATAPI.
abbrev pub is_atapi : ℕ → ℕ → Bool
is_atapi cl ch = ((cl == 0x14) && (ch == 0xEB)) || ((cl == 0x69) && (ch == 0x96))

-- `type`, or `none` for a device that is passed over.
unfoldable pub device_type : Drives → ℕ → ℕ → Op Ide (Option ℕ)
device_type hw i err = elim (err == 0) [
  | true ↦ pure (some 0)
  | false ↦ (do
    cl ← ide_read hw i 0x04
    ch ← ide_read hw i 0x05
    elim (is_atapi cl ch) [ false ↦ pure none | true ↦ ide_write i 0x07 0xA1 >> pure (some 1) ])
]

abbrev pub short_at : (ℕ → ℕ) → ℕ → ℕ
short_at buf k = buf k + 256 * buf (k + 1)

abbrev pub int_at : (ℕ → ℕ) → ℕ → ℕ
int_at buf k = short_at buf k + 65536 * short_at buf (k + 2)

-- The model's name: `n` pairs of bytes from `k` on, each the other way round.
unfoldable pub model_of : ℕ → ℕ → (ℕ → ℕ) → List ℕ
model_of zero k buf = 0 ∷ []
model_of (suc n) k buf = buf (54 + k + 1) ∷ buf (54 + k) ∷ model_of n (k + 2) buf

-- Steps (VI) to (VIII).
unfoldable pub described : ℕ → ℕ → ℕ → (ℕ → ℕ) → IdeDevice
described i j kind buf =
    let command_sets = int_at buf 164 in
    record {
      reserved = 1;
      channel = i;
      drive = j;
      kind = kind;
      signature = short_at buf 0;
      capabilities = short_at buf 98;
      command_sets = command_sets;
      size = if bit 26 command_sets then int_at buf 200 else int_at buf 120;
      model = model_of 20 0 buf;
    }

abbrev pub set_device : ℕ → (Ide → IdeDevice) → Op Ide (Unit {0})
set_device count f s = some (tt, record s { ide_devices = update s.ide_devices count (f s) })

-- Steps (V) to (VIII) for a drive of a type.
unfoldable pub settle : Drives → ℕ → ℕ → ℕ → Option ℕ → Op Ide ℕ
settle hw i j count none = pure count
settle hw i j count (some k) = do
  ide_read_buffer hw i 0x00 128
  set_device count (λ s. described i j k s.ide_buf)
  pure (count + 1)

-- The body of the two loops, for channel `i` and drive `j`: the next `count`.
unfoldable pub probe_drive : ℕ → Drives → ℕ → ℕ → ℕ → Op Ide ℕ
probe_drive fuel hw i j count = do
  set_device count (λ s. record (s.ide_devices count) { reserved = 0 })
  ide_write i 0x06 (0xA0 + j * 16)
  ide_write i 0x07 0xEC
  status ← ide_read hw i 0x07
  elim (status == 0) [
    | true ↦ pure count
    | false ↦ (do
      err ← wait_identify fuel hw i
      kind ← device_type hw i err
      settle hw i j count kind)
  ]

unfoldable pub probe_drives : ℕ → Drives → Op Ide ℕ
probe_drives fuel hw = do
  count1 ← probe_drive fuel hw 0 0 0
  count2 ← probe_drive fuel hw 0 1 count1
  count3 ← probe_drive fuel hw 1 0 count2
  probe_drive fuel hw 1 1 count3

-- `strcmp(s, t) == 0` on the memory, for texts shorter than `fuel`.
unfoldable pub memory_same : ℕ → ℕ → ℕ → (ℕ → ℕ) → Option Bool
memory_same zero s t memory = none
memory_same (suc fuel) s t memory = elim (memory s == memory t) [
  | false ↦ some false
  | true ↦ elim (memory s == 0) [
    | true ↦ some true
    | false ↦ memory_same fuel (s + 1) (t + 1) memory
  ]
]

-- The test of the second drive, from round `k` on: it is written, read back and compared; `true` ends
-- `ide_initialize`.
unfoldable pub self_test : ℕ → ℕ → Drives → ℕ → ℕ → Op Ide Bool
self_test zero fuel hw drive k s = pure false s
self_test (suc n) fuel hw drive k s =
    (do
      ide_write_sectors fuel hw drive 8 (8 * k) 0x800000
      ide_read_sectors fuel hw drive 8 (8 * k) 0x900000
      same ← (λ t. elim (memory_same fuel 0x800000 0x900000 t.memory) [
        | none ↦ none
        | some b ↦ some (b, t)
      ])
      elim same [ true ↦ self_test n fuel hw drive (k + 1) | false ↦ pure true ])
      (record s { memory = fill (λ _. k) 0x800000 4096 s.memory })

-- `ide_initialize`, without what it prints.
unfoldable pub ide_initialize : ℕ → Drives → ℕ → ℕ → ℕ → ℕ → ℕ → Op Ide (Unit {0})
ide_initialize fuel hw bar0 bar1 bar2 bar3 bar4 = do
  set_channels bar0 bar1 bar2 bar3 bar4
  ide_write 0 0x0C 2
  ide_write 1 0x0C 2
  _ ← probe_drives fuel hw
  s1 ← (λ s. some (s.ide_devices 1, s))
  elim (s1.reserved == 1) [
    | false ↦ pure tt
    | true ↦ (do _ ← self_test 100 fuel hw s1.drive 0; pure tt)
  ]

-- The bytes of `atapi_packet`.
unfoldable pub atapi_packet : ℕ → ℕ → List ℕ
atapi_packet lba numsects =
    0xA8
    ∷ 0
    ∷ lba / 16777216 % 256
    ∷ lba / 65536 % 256
    ∷ lba / 256 % 256
    ∷ lba % 256
    ∷ 0
    ∷ 0
    ∷ 0
    ∷ numsects
    ∷ 0
    ∷ 0
    ∷ []

abbrev pub insw_block : Drives → ℕ → ℕ → Op Ide (Unit {0})
insw_block hw bus addr s = some (
  tt,
  record s {
    events = ins bus addr 2048 ∷ s.events;
    memory = fill (hw.block s.events bus) addr 2048 s.memory;
  },
)

-- The loop over the sectors of 2048 bytes; `edi` has 32 bits.
unfoldable pub atapi_loop : ℕ → Drives → ℕ → ℕ → ℕ → ℕ → Op Ide ℕ
atapi_loop fuel hw channel bus zero edi = pure 0
atapi_loop fuel hw channel bus (suc n) edi = do
  wait_irq fuel 0 hw
  err ← ide_polling fuel hw channel 1
  elim (err == 0) [
    | false ↦ pure err
    | true ↦ insw_block hw bus edi >> atapi_loop fuel hw channel bus n ((edi + 2048) % 4294967296)
  ]

abbrev pub both_busy : ℕ → Bool
both_busy status = bit 7 status || bit 3 status

-- Steps (VIII) to (XI).
unfoldable pub atapi_transfer : ℕ → Drives → ℕ → ℕ → ℕ → ℕ → ℕ → Op Ide ℕ
atapi_transfer fuel hw channel bus lba numsects edi = do
  (λ s. some (tt, record s { events = outs bus (atapi_packet lba numsects) ∷ s.events }))
  err ← atapi_loop fuel hw channel bus numsects edi
  elim (err == 0) [
    | false ↦ pure err
    | true ↦ (do wait_irq fuel 0 hw; _ ← wait_while fuel hw both_busy channel; pure 0)
  ]

abbrev pub enable_irqs : ℕ → Op Ide (Unit {0})
enable_irqs channel s =
    let c = s.channels channel in
    ide_write channel 0x0C 0 (record s {
      ide_irq_invoked = 0;
      channels = update s.channels channel (record c { n_ien = 0 });
    })

unfoldable pub ide_atapi_read : ℕ → Drives → ℕ → ℕ → ℕ → ℕ → Op Ide ℕ
ide_atapi_read fuel hw drive lba numsects edi s =
    let d = s.ide_devices drive in
    let bus = (s.channels d.channel).base in
    (do
      enable_irqs d.channel
      ide_write d.channel 0x06 (d.drive * 16 % 256)
      for_op 4 0 (ignore_status hw d.channel)
      ide_write d.channel 0x01 0
      ide_write d.channel 0x04 0
      ide_write d.channel 0x05 8
      ide_write d.channel 0x07 0xA0
      err ← ide_polling fuel hw d.channel 1
      elim (err == 0) [
        | false ↦ pure err
        | true ↦ atapi_transfer fuel hw d.channel bus lba numsects edi
      ])
      s
