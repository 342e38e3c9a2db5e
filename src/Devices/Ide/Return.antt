-- ===== src/Devices/Ide/Return.antt =====
-- `ide_read_sectors` and `ide_write_sectors` of sys/ide.c come back from a drive that answers.
use mathlib.Core.Path.{subst}
use native.Mathlib.Decide.{ℕ_discrete}
use osproject.Prelude.{
  ℕ, zero, suc, ◌+◌, ◌*◌, ◌%◌, ◌≤◌, ◌≡◌, ◌≢◌, ◌⊎◌, refl, sym, ◌∙◌, inl, inr, Option, true, false,
  some, List, ◌==◌, Bool-cases, arith,
}
use osproject.Prelude.State.{Op, pure, ◌>>=◌, ◌>>◌, when}
use osproject.Devices.Disk.{bit}
use osproject.Devices.Ide.{
  Ide, Event, Drives, ide_write, error_code, read_reg, ide_read, wait_while, ide_polling,
  ide_print_error,
}
use osproject.Devices.Ide.Access.{
  Address, address_of, write_high, send_command, insw_sector, outsw_sector, read_loop, write_loop,
  transfer, flush_of, disable_irqs, ide_ata_access, missing, beyond, run_sectors, ide_read_sectors,
  ide_write_sectors,
}
use osproject.Devices.Ide.Writes.{with_events}
use osproject.Devices.Ide.Quiet.{received, sent_blocks}
use osproject.Devices.Ide.Outcome.{places, images}
use osproject.Devices.Ide.Sectors.{ide_read_sectors-places, ide_write_sectors-images}
use osproject.Devices.Ide.Ready.{
  Answers, status_port, Comes, bind-Comes, write-Comes, wait_while-Comes, ide_polling-Comes,
}

-- An operation that comes back with a value, the channels as they were.
abbrev pub Ends : {A : Type 0} → Op Ide A → Ide → A → Type 0
Ends {A = A} m s a =
    (s' : Ide) × (◌≡◌ {A = Option (A × Ide)} (m s) (some (a, s'))) × (s'.channels ≡ s.channels)

pub Comes-Ends : {A : Type 0} (m : Op Ide A) (s : Ide) (a : A) → Comes m s a → Ends m s a
Comes-Ends m s a (es, e) = (with_events s es, e, refl)

pub bind-Ends :
    {A B : Type 0} (m : Op Ide A) (f : A → Op Ide B) (s : Ide) (a : A) (b : B)
    → Ends m s a
    → ((t : Ide) → t.channels ≡ s.channels → Ends (f a) t b)
    → Ends (m >>= f) s b
bind-Ends m f s a b (t, e, same) h =
    let (u, e', same') = h t same in (u, rw (e, ◌>>=◌) e', same' ∙ same)

port_same :
    (hw : Drives) (b channel : ℕ) (s t : Ide)
    → Answers hw b (status_port channel s)
    → t.channels ≡ s.channels
    → Answers hw b (status_port channel t)
port_same hw b channel s t ready e =
    subst (λ c. Answers hw b (((c channel).base + 7) % 65536)) (sym e) ready

insw-Ends : (hw : Drives) (bus addr : ℕ) (s : Ide) → Ends (insw_sector hw bus addr) s tt
unfolding insw_sector
insw-Ends hw bus addr s = (_, refl, refl)

outsw-Ends : (bus addr : ℕ) (s : Ide) → Ends (outsw_sector bus addr) s tt
unfolding outsw_sector
outsw-Ends bus addr s = (_, refl, refl)

pub read_loop-Ends :
    (fuel : ℕ) (hw : Drives) (b channel bus buf n i : ℕ) (s : Ide)
    → Answers hw b (status_port channel s)
    → b ≤ fuel
    → (err : ℕ) × Ends (read_loop fuel hw channel bus buf n i) s err
unfolding read_loop
read_loop-Ends fuel hw b channel bus buf zero i s ready enough = (0, (s, refl, refl))
read_loop-Ends fuel hw b channel bus buf (suc n) i s ready enough =
    let (err, (es, e)) = ide_polling-Comes fuel hw b channel 1 s ready enough in
    let t = with_events s es in
    elim (Bool-cases (err == 0)) [
      | inr bad ↦ (err, (t, rw (e, ◌>>=◌) (rw bad refl), refl))
      | inl good ↦
          let (u, e', same) = insw-Ends hw bus (buf + i * 512) t in
          let (code, (w, e'', same')) =
            read_loop-Ends fuel hw b channel bus buf n (i + 1) u
              (port_same hw b channel s u ready same) enough in
          (code, (w, rw (e, ◌>>=◌) (rw good (rw (e', ◌>>=◌) e'')), same' ∙ same))
    ]

pub write_loop-Ends :
    (fuel : ℕ) (hw : Drives) (b channel bus buf n i : ℕ) (s : Ide)
    → Answers hw b (status_port channel s)
    → b ≤ fuel
    → Ends (write_loop fuel hw channel bus buf n i) s tt
unfolding write_loop
write_loop-Ends fuel hw b channel bus buf zero i s ready enough = (s, refl, refl)
write_loop-Ends fuel hw b channel bus buf (suc n) i s ready enough =
    let (v, polled) = ide_polling-Comes fuel hw b channel 0 s ready enough in
    bind-Ends (ide_polling fuel hw channel 0) _ s v tt
      (Comes-Ends (ide_polling fuel hw channel 0) s v polled)
      (λ t same.
        bind-Ends (outsw_sector bus (buf + i * 512)) _ t tt tt (outsw-Ends bus (buf + i * 512) t)
          (λ u same'.
            write_loop-Ends fuel hw b channel bus buf n (i + 1) u
              (port_same hw b channel s u ready (same' ∙ same)) enough))

low-Comes :
    (channel reg v : ℕ) (k : Op Ide (Unit {0})) (s : Ide)
    → ((es : List Event) → Comes k (with_events s es) tt)
    → Comes (ide_write channel reg v >> k) s tt
low-Comes channel reg v k s h =
    bind-Comes (ide_write channel reg v) (λ _. k) s tt tt (write-Comes channel reg v s) h

write_high-Comes : (channel : ℕ) (a : Address) (s : Ide) → Comes (write_high channel a) s tt
unfolding write_high
write_high-Comes channel a s = low-Comes channel 0x08 0 _ s (λ es1.
    low-Comes channel 0x09 a.io3 _ (with_events s es1) (λ es2.
      low-Comes channel 0x0A a.io4 _ (with_events s es2)
        (λ es3. write-Comes channel 0x0B a.io5 (with_events s es3))))

send_command-Comes :
    (direction channel slavebit : ℕ) (a : Address) (n : ℕ) (s : Ide)
    → Comes (send_command direction channel slavebit a n) s tt
unfolding send_command
send_command-Comes direction channel slavebit a n s = low-Comes channel 0x06 _ _ s (λ es1.
    bind-Comes (when (a.lba_mode == 2) (write_high channel a)) _ (with_events s es1) tt tt
      (high-Comes (with_events s es1))
      (λ es2. low-Comes channel 0x02 _ _ (with_events s es2) (λ es3.
        low-Comes channel 0x03 _ _ (with_events s es3) (λ es4.
          low-Comes channel 0x04 _ _ (with_events s es4) (λ es5.
            low-Comes channel 0x05 _ _ (with_events s es5)
              (λ es6. write-Comes channel 0x07 _ (with_events s es6)))))))
  where
    high-Comes : (t : Ide) → Comes (when (a.lba_mode == 2) (write_high channel a)) t tt
    high-Comes t = elim (Bool-cases (a.lba_mode == 2)) [
      | inl e ↦ rw e (write_high-Comes channel a t)
      | inr e ↦ rw e (t.events, refl)
    ]

transfer-Ends :
    (fuel : ℕ) (hw : Drives) (b direction channel bus buf n mode : ℕ) (s : Ide)
    → Answers hw b (status_port channel s)
    → b ≤ fuel
    → (err : ℕ) × Ends {A = ℕ} (transfer fuel hw direction channel bus buf n mode) s err
unfolding transfer
transfer-Ends fuel hw b direction channel bus buf n mode s ready enough =
    elim (Bool-cases (direction == 0)) [
      | inl e ↦ rw (e, transfer) (read_loop-Ends fuel hw b channel bus buf n 0 s ready enough)
      | inr e ↦
          rw (e, transfer)
            (
              0,
              bind-Ends (write_loop fuel hw channel bus buf n 0) _ s tt 0
                  (write_loop-Ends fuel hw b channel bus buf n 0 s ready enough)
                  (λ t same. flush t (port_same hw b channel s t ready same)),
            )
    ]
  where
    flush :
        (t : Ide)
        → Answers hw b (status_port channel t)
        → Ends {A = ℕ}
            (ide_write channel 0x07 (flush_of mode)
              >> (ide_polling fuel hw channel 0 >>= λ _. pure 0))
            t
            0
    flush t ready =
        Comes-Ends
          (ide_write channel 0x07 (flush_of mode) >>= λ _.
            (ide_polling fuel hw channel 0 >>= λ _. pure 0))
          t 0
          (bind-Comes (ide_write channel 0x07 (flush_of mode)) _ t tt 0
            (write-Comes channel 0x07 (flush_of mode) t)
            (λ es.
              let (v, polled) =
                ide_polling-Comes fuel hw b channel 0 (with_events t es) ready enough in
              bind-Comes (ide_polling fuel hw channel 0) _ (with_events t es) v 0 polled
                (λ es'. (es', refl))))

-- `disable_irqs` keeps the ports.
disabled :
    (channel : ℕ) (s : Ide)
    → (t : Ide) × (disable_irqs channel s ≡ some (tt, t))
      × (status_port channel t ≡ status_port channel s)
unfolding disable_irqs ide_write
disabled channel s = (_, refl, rw (self channel) refl)
  where
    self : (k : ℕ) → (k == k) ≡ true
    self k = ground arith

run-Ends :
    (fuel : ℕ) (hw : Drives) (b direction channel slavebit bus buf n : ℕ) (a : Address) (s : Ide)
    → Answers hw b (status_port channel s)
    → b ≤ fuel
    → (err : ℕ) × Ends {A = ℕ}
        (wait_while fuel hw (bit 7) channel >>= λ _.
          send_command direction channel slavebit a n
          >> transfer fuel hw direction channel bus buf n a.lba_mode)
        s
        err
run-Ends fuel hw b direction channel slavebit bus buf n a s ready enough =
    let (j, low, idle) = ready.idle s.events in
    let (v, (es, e)) = wait_while-Comes j fuel hw channel s (omega arith) idle in
    let (es', e') = send_command-Comes direction channel slavebit a n (with_events s es) in
    let (err, (t, e'', same)) =
      transfer-Ends fuel hw b direction channel bus buf n a.lba_mode (with_events s es') ready
        enough in
    (err, (t, rw (e, ◌>>=◌) (rw (e', ◌>>=◌) e''), same))

ata_access-returns :
    (fuel : ℕ) (hw : Drives) (b direction drive lba n buf : ℕ) (s : Ide)
    → Answers hw b (status_port (s.ide_devices drive).channel s)
    → b ≤ fuel
    → (err : ℕ) × (s' : Ide) × (ide_ata_access fuel hw direction drive lba n buf s ≡ some (err, s'))
unfolding ide_ata_access
ata_access-returns fuel hw b direction drive lba n buf s ready enough =
    let d = s.ide_devices drive in
    let (t, e, port) = disabled d.channel s in
    let (err, (s', e', _)) =
      run-Ends fuel hw b direction d.channel d.drive (s.channels d.channel).base buf n
        (address_of d.capabilities lba) t (subst (Answers hw b) (sym port) ready) enough in
    (err, s', rw (e, ◌>>=◌) e')

print_error-returns :
    (hw : Drives) (drive err : ℕ) (s : Ide)
    → (code : ℕ) × (s' : Ide) × (ide_print_error hw drive err s ≡ some (code, s'))
unfolding ide_print_error ide_read
print_error-returns hw drive err s = elim (Bool-cases (err == 1)) [
  | inl e1 ↦ (19, s, rw e1 refl)
  | inr e1 ↦ elim (Bool-cases (err == 2)) [
    | inl e2 ↦
        let r = read_reg hw (s.channels (s.ide_devices drive).channel) 0x01 s.events in
        (error_code r.0, record s { events = r.1 }, rw (e1, e2) refl)
    | inr e2 ↦ elim (Bool-cases (err == 3)) [
      | inl e3 ↦ (23, s, rw (e1, e2, e3) refl)
      | inr e3 ↦ elim (Bool-cases (err == 4)) [
        | inl e4 ↦ (8, s, rw (e1, e2, e3, e4) refl)
        | inr e4 ↦ (err, s, rw (e1, e2, e3, e4) refl)
      ]
    ]
  ]
]

-- Either operation comes back.
run_sectors-returns :
    (fuel : ℕ) (hw : Drives) (b direction protected drive n lba buf : ℕ) (s : Ide)
    → (s.ide_devices drive).kind ≡ 0
    → Answers hw b (status_port (s.ide_devices drive).channel s)
    → b ≤ fuel
    → (s' : Ide) × (run_sectors fuel hw direction protected drive n lba buf s ≡ some (tt, s'))
run_sectors-returns fuel hw b direction protected drive n lba buf s ata ready enough =
    let (err, t, e) = ata_access-returns fuel hw b direction drive lba n buf s ready enough in
    let (code, u, e') = print_error-returns hw drive err t in
    (record u { package_0 = code }, rw (ata, e, ◌>>=◌) (rw (e', ◌>>=◌) refl))

-- For a drive of type ATA that is there and has the sectors, and that shows within `b` readings of its status
-- that it is not busy, whatever was done before: with `b` rounds for a wait, `ide_read_sectors` comes back,
-- and either `package[0]` is not 0 or `numsects` blocks were received, one after the other from `buf` on;
-- and `ide_write_sectors` comes back with 0 and the blocks of the memory sent, in their order.
pub sectors-return :
    (fuel : ℕ) (hw : Drives) (b drive n lba buf : ℕ) (s : Ide)
    → (s.ide_devices drive).kind ≡ 0
    → missing drive s ≡ false
    → beyond drive n lba s ≡ false
    → Answers hw b (status_port (s.ide_devices drive).channel s)
    → b ≤ fuel
    → ((r : Ide) × (ide_read_sectors fuel hw drive n lba buf s ≡ some (tt, r))
        × ((r.package_0 ≢ 0) ⊎ (received r.events ≡ places buf n 0 (received s.events))))
      × ((w : Ide) × (ide_write_sectors fuel hw drive n lba buf s ≡ some (tt, w))
          × (w.package_0 ≡ 0)
          × (sent_blocks w.events ≡ images s.memory buf n 0 (sent_blocks s.events)))
unfolding ide_read_sectors ide_write_sectors
sectors-return fuel hw b drive n lba buf s ata here near ready enough =
    let (r, er) = run_sectors-returns fuel hw b 0 0 drive n lba buf s ata ready enough in
    let (w, ew) = run_sectors-returns fuel hw b 1 4 drive n lba buf s ata ready enough in
    let back : ide_read_sectors fuel hw drive n lba buf s ≡ some (tt, r) = rw (here, near) er in
    let back' : ide_write_sectors fuel hw drive n lba buf s ≡ some (tt, w) = rw (here, near) ew in
    let put = ide_write_sectors-images fuel hw drive n lba buf s w ata here near back' in
    (
      (
        r,
        back,
        elim (ℕ_discrete r.package_0 0) [
          | yes ok ↦ inr (ide_read_sectors-places fuel hw drive n lba buf s r ata back ok).3
          | no bad ↦ inl bad
        ],
      ),
      (w, back', put.0, put.1),
    )
