-- ===== src/Devices/Ide/Ready.antt =====
-- A drive that answers: the loops of sys/ide.c come back.
use osproject.Prelude.{
  ℕ, zero, suc, ◌+◌, ◌%◌, ◌≤◌, ◌<◌, ◌≡◌, refl, inl, inr, Option, true, false, some, List, ◌∷◌, ◌==◌,
  Bool-cases, arith,
}
use osproject.Prelude.State.{Op, pure, ◌>>=◌, for_op}
use osproject.Devices.Disk.{bit}
use osproject.Devices.Ide.{
  Ide, Event, inb, Drives, port_of, read_reg, ide_read, ide_write, wait_while, status_code,
  ide_polling, ignore_status,
}
use osproject.Devices.Ide.Writes.{with_events}

-- `j` more readings of a port.
abbrev pub readings : ℕ → ℕ → List Event → List Event
readings zero p es = es
readings (suc j) p es = readings j p (inb p ∷ es)

-- Whatever was done before, the drive shows that it is not busy within `b` readings of its status.
pub record Answers (hw : Drives) (b p : ℕ) : Type 0 where
  pub idle : (es : List Event) → (j : ℕ) × (j < b) × (bit 7 (hw.answer (readings j p es) p) ≡ false)

abbrev pub status_port : ℕ → Ide → ℕ
status_port channel s = ((s.channels channel).base + 7) % 65536

-- An operation that comes back with a value, having done no more than add events.
abbrev pub Comes : {A : Type 0} → Op Ide A → Ide → A → Type 0
Comes {A = A} m s a =
    (es : List Event) × (◌≡◌ {A = Option (A × Ide)} (m s) (some (a, with_events s es)))

read_status :
    (hw : Drives) (channel : ℕ) (s : Ide)
    → ide_read hw channel 0x07 s
      ≡ some (
        hw.answer s.events (status_port channel s),
        with_events s (inb (status_port channel s) ∷ s.events),
      )
unfolding ide_read read_reg port_of
read_status hw channel s = refl

pub wait_while-Comes :
    (j fuel : ℕ) (hw : Drives) (channel : ℕ) (s : Ide)
    → j < fuel
    → bit 7 (hw.answer (readings j (status_port channel s) s.events) (status_port channel s))
      ≡ false
    → (v : ℕ) × Comes (wait_while fuel hw (bit 7) channel) s v
unfolding wait_while
wait_while-Comes j zero hw channel s h idle = absurd (omega arith)
wait_while-Comes zero (suc fuel) hw channel s h idle = (
  hw.answer s.events (status_port channel s),
  (inb (status_port channel s) ∷ s.events, rw (read_status hw channel s, ◌>>=◌) (rw idle refl)),
)
wait_while-Comes (suc j) (suc fuel) hw channel s h idle =
    elim (Bool-cases (bit 7 (hw.answer s.events (status_port channel s)))) [
      | inr now ↦ (
        hw.answer s.events (status_port channel s),
        (
          inb (status_port channel s) ∷ s.events,
          rw (read_status hw channel s, ◌>>=◌) (rw now refl),
        ),
      )
      | inl later ↦
          let s1 = with_events s (inb (status_port channel s) ∷ s.events) in
          let (v, (es, e)) = wait_while-Comes j fuel hw channel s1 (omega arith) idle in
          (v, (es, rw (read_status hw channel s, ◌>>=◌) (rw later e)))
    ]

pub bind-Comes :
    {A B : Type 0} (m : Op Ide A) (f : A → Op Ide B) (s : Ide) (a : A) (b : B)
    → Comes m s a
    → ((es : List Event) → Comes (f a) (with_events s es) b)
    → Comes (m >>= f) s b
bind-Comes m f s a b (es, e) h = let (es', e') = h es in (es', rw (e, ◌>>=◌) e')

pub write-Comes : (channel reg v : ℕ) (s : Ide) → Comes (ide_write channel reg v) s tt
unfolding ide_write
write-Comes channel reg v s = (_, refl)

pub read-Comes :
    (hw : Drives) (channel reg : ℕ) (s : Ide) → (v : ℕ) × Comes (ide_read hw channel reg) s v
unfolding ide_read
read-Comes hw channel reg s = (_, (_, refl))

ignore-Comes : (hw : Drives) (channel k : ℕ) (s : Ide) → Comes (ignore_status hw channel k) s tt
ignore-Comes hw channel k s =
    let (v, c) = read-Comes hw channel 0x0C s in
    bind-Comes (ide_read hw channel 0x0C) _ s v tt c (λ es. (es, refl))

for_op-Comes :
    (n i : ℕ) (body : ℕ → Op Ide (Unit {0}))
    → ((k : ℕ) (s : Ide) → Comes (body k) s tt)
    → (s : Ide) → Comes (for_op n i body) s tt
unfolding for_op
for_op-Comes zero i body h s = (s.events, refl)
for_op-Comes (suc n) i body h s =
    bind-Comes (body i) (λ _. for_op n (i + 1) body) s tt tt (h i s)
      (λ es. for_op-Comes n (i + 1) body h (with_events s es))

pub ide_polling-Comes :
    (fuel : ℕ) (hw : Drives) (b channel advanced : ℕ) (s : Ide)
    → Answers hw b (status_port channel s)
    → b ≤ fuel
    → (v : ℕ) × Comes (ide_polling fuel hw channel advanced) s v
unfolding ide_polling
ide_polling-Comes fuel hw b channel advanced s ready enough =
    let (es, e) = for_op-Comes 4 0 (ignore_status hw channel) (ignore-Comes hw channel) s in
    let (j, low, idle) = ready.idle es in
    let (v, (es', e')) = wait_while-Comes j fuel hw channel (with_events s es) (omega arith) idle in
    let (w, (es'', e'')) = last (with_events s es') in
    (w, (es'', rw (e, ◌>>=◌) (rw (e', ◌>>=◌) e'')))
  where
    last :
        (t : Ide)
        → (w : ℕ) × Comes
            (elim (advanced == 0) [
              | true ↦ pure 0
              | false ↦ ide_read hw channel 0x07 >>= λ state. pure (status_code state)
            ])
            t
            w
    last t = elim (Bool-cases (advanced == 0)) [
      | inl plain ↦ (0, rw plain (t.events, refl))
      | inr full ↦ (
        status_code (hw.answer t.events (status_port channel t)),
        rw full (inb (status_port channel t) ∷ t.events, rw (read_status hw channel t, ◌>>=◌) refl),
      )
    ]
