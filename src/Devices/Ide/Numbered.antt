-- ===== src/Devices/Ide/Numbered.antt =====
-- The drives that `ide_initialize` of sys/ide.c finds, in their order.
use osproject.Prelude.{
  ℕ, zero, suc, ◌+◌, ◌*◌, ◌≤◌, ◌<◌, ◌≡◌, refl, sym, ◌∙◌, ap, inl, inr, Option, none, true, false,
  ◌&&◌, not, some, ◌==◌, Bool-cases, arith,
}
use osproject.Prelude.State.{Op, pure, ◌>>=◌, ◌>>◌, >>=-eq-some}
use osproject.Prelude.Loops.{update}
use osproject.Devices.Disk.{bit}
use osproject.Devices.Ide.{IdeDevice, Ide, Drives, ide_read, ide_write, ide_read_buffer, port_of}
use osproject.Devices.Ide.Quiet.{
  Quiet, bind-Quiet, pure-Quiet, ide_read-Quiet, ide_write-Quiet, returned-value, returned-state,
}
use osproject.Devices.Ide.Setup.{
  wait_identify, device_type, is_atapi, described, settle, probe_drive, probe_drives,
}

-- The place of a drive: the two of the first channel, then those of the second.
abbrev pub place : IdeDevice → ℕ
place d = 2 * d.channel + d.drive

-- The first `count` entries are drives that are there, at places below `limit`, each after the one before;
-- the others are empty.
pub record IsNumbered (devices : ℕ → IdeDevice) (count limit : ℕ) : Type 0 where
  pub present : (k : ℕ) → k < count → (devices k).reserved ≡ 1
  pub placed :
      (k : ℕ)
      → k < count
      → ((devices k).channel < 2) × ((devices k).drive < 2) × (place (devices k) < limit)
  pub sorted : (j k : ℕ) → j < k → k < count → place (devices j) < place (devices k)
  pub absent : (k : ℕ) → count ≤ k → (devices k).reserved ≡ 0

-- An entry that is not counted is emptied, or becomes the next drive.
emptied :
    (devices : ℕ → IdeDevice) (count limit : ℕ) (d : IdeDevice)
    → IsNumbered devices count limit
    → d.reserved ≡ 0
    → IsNumbered (update devices count d) count limit
emptied devices count limit d h e = record {
  present = λ k lt. ground (arith, h.present k);
  placed = λ k lt. ground (arith, h.placed k);
  sorted = λ j k p lt. ground (arith, h.sorted j k);
  absent = λ k le. ground (arith, h.absent k, e);
}

added :
    (devices : ℕ → IdeDevice) (count limit : ℕ) (d : IdeDevice)
    → IsNumbered devices count limit
    → d.reserved ≡ 1
    → d.channel < 2
    → d.drive < 2
    → place d ≡ limit
    → IsNumbered (update devices count d) (count + 1) (limit + 1)
added devices count limit d h e c v p = record {
  present = λ k lt. ground (arith, h.present k, e);
  placed = λ k lt. ground (arith, h.placed k, p, c, v);
  sorted = λ j k q lt. ground (arith, h.sorted j k, h.placed j, p);
  absent = λ k le. ground (arith, h.absent k);
}

wait_identify-Quiet : (fuel : ℕ) (hw : Drives) (i : ℕ) → Quiet (wait_identify fuel hw i)
unfolding wait_identify
wait_identify-Quiet zero hw i = λ s s' a e. absurd (cc)
wait_identify-Quiet (suc fuel) hw i =
    bind-Quiet (ide_read hw i 0x07) _ (ide_read-Quiet hw i 0x07) (λ status.
      elim (Bool-cases (bit 0 status)) [
        | inl e ↦ rw e (pure-Quiet 1)
        | inr e ↦ elim (Bool-cases (not (bit 7 status) && bit 3 status)) [
          | inl e' ↦ rw (e, e') (pure-Quiet 0)
          | inr e' ↦ rw (e, e') (wait_identify-Quiet fuel hw i)
        ]
      ])

device_type-Quiet : (hw : Drives) (i err : ℕ) → Quiet (device_type hw i err)
unfolding device_type
device_type-Quiet hw i err = elim (Bool-cases (err == 0)) [
  | inl e ↦ rw (e, device_type) (pure-Quiet (some 0))
  | inr e ↦
      rw (e, device_type)
        (bind-Quiet (ide_read hw i 0x04) _ (ide_read-Quiet hw i 0x04) (λ cl.
          bind-Quiet (ide_read hw i 0x05) _ (ide_read-Quiet hw i 0x05) (λ ch. signature cl ch)))
]
  where
    signature :
        (cl ch : ℕ)
        → Quiet {A = Option ℕ} (elim (is_atapi cl ch) [
          | false ↦ pure none
          | true ↦ ide_write i 0x07 0xA1 >> pure (some 1)
        ])
    signature cl ch = elim (Bool-cases (is_atapi cl ch)) [
      | inr e ↦ rw e (pure-Quiet none)
      | inl e ↦ rw e (
          bind-Quiet (ide_write i 0x07 0xA1) _ (ide_write-Quiet i 0x07 0xA1)
            (λ _. pure-Quiet (some 1)))
    ]

read_buffer-devices :
    (hw : Drives) (i reg quads : ℕ) (s s' : Ide) (u : Unit {0})
    → ◌≡◌ {A = Option (Unit {0} × Ide)} (ide_read_buffer hw i reg quads s) (some (u, s'))
    → s'.ide_devices ≡ s.ide_devices
unfolding ide_read_buffer port_of
read_buffer-devices hw i reg quads s s' u e =
    ap (λ t. t.ide_devices) (sym (returned-state tt u _ s' e)) ∙ ground arith

later :
    (devices : ℕ → IdeDevice) (count limit : ℕ)
    → IsNumbered devices count limit
    → IsNumbered devices count (limit + 1)
later devices count limit h = record {
  present = h.present;
  placed = λ k lt. ground (arith, h.placed k);
  sorted = h.sorted;
  absent = h.absent;
}

carry :
    (d d' : ℕ → IdeDevice) (c c' limit : ℕ)
    → d' ≡ d
    → c ≡ c'
    → IsNumbered d c limit
    → IsNumbered d' c' limit
carry d d' c c' limit e1 e2 h = rw (e1, ← e2) h

settle-IsNumbered :
    (hw : Drives) (i j count limit : ℕ) (kind : Option ℕ) (t s' : Ide) (count' : ℕ)
    → IsNumbered t.ide_devices count limit
    → i < 2
    → j < 2
    → 2 * i + j ≡ limit
    → settle hw i j count kind t ≡ some (count', s')
    → IsNumbered s'.ide_devices count' (limit + 1)
unfolding settle described
settle-IsNumbered hw i j count limit none t s' count' h ci cj p e =
    carry t.ide_devices s'.ide_devices count count' (limit + 1)
      (ap (λ x. x.ide_devices) (sym (returned-state count count' t s' e)))
      (returned-value count count' t s' e) (later t.ide_devices count limit h)
settle-IsNumbered hw i j count limit (some k) t s' count' h ci cj p e =
    let (u, t1, went, rest) = >>=-eq-some (ide_read_buffer hw i 0x00 128) _ t s' count' e in
    let d = described i j k t1.ide_buf in
    let kept = read_buffer-devices hw i 0x00 128 t t1 u went in
    let t2 = record t1 { ide_devices = update t1.ide_devices count d } in
    carry (update t1.ide_devices count d) s'.ide_devices (count + 1) count' (limit + 1)
      (ap (λ x. x.ide_devices) (sym (returned-state (count + 1) count' t2 s' rest)))
      (returned-value (count + 1) count' t2 s' rest)
      (added t1.ide_devices count limit d
        (carry t.ide_devices t1.ide_devices count count limit kept refl h) refl ci cj p)

-- A step that leaves the drives alone.
step_quietly :
    {A : Type 0} (m : Op Ide A) (f : A → Op Ide ℕ) (s s' : Ide) (n : ℕ)
    → Quiet m
    → ◌≡◌ {A = Option (ℕ × Ide)} ((m >>= f) s) (some (n, s'))
    → (a : A) × (t : Ide) × (t.ide_devices ≡ s.ide_devices)
      × (◌≡◌ {A = Option (ℕ × Ide)} (f a t) (some (n, s')))
step_quietly m f s s' n quiet e =
    let (a, t, went, rest) = >>=-eq-some m f s s' n e in (a, t, (quiet s t a went).devices, rest)

probe_drive-IsNumbered :
    (fuel : ℕ) (hw : Drives) (i j count limit : ℕ) (s s' : Ide) (count' : ℕ)
    → IsNumbered s.ide_devices count limit
    → i < 2
    → j < 2
    → 2 * i + j ≡ limit
    → probe_drive fuel hw i j count s ≡ some (count', s')
    → IsNumbered s'.ide_devices count' (limit + 1)
unfolding probe_drive
probe_drive-IsNumbered fuel hw i j count limit s s' count' h ci cj p e =
    let d = record (s.ide_devices count) { reserved = 0 } in
    let s0 = record s { ide_devices = update s.ide_devices count d } in
    let h0 : IsNumbered s0.ide_devices count limit = emptied s.ide_devices count limit d h refl in
    let (_, s1, k1, e1) =
      step_quietly (ide_write i 0x06 (0xA0 + j * 16)) _ s0 s' count' (ide_write-Quiet i 0x06 _) e in
    let (_, s2, k2, e2) =
      step_quietly (ide_write i 0x07 0xEC) _ s1 s' count' (ide_write-Quiet i 0x07 0xEC) e1 in
    let (status, s3, k3, e3) =
      step_quietly (ide_read hw i 0x07) _ s2 s' count' (ide_read-Quiet hw i 0x07) e2 in
    let h3 : IsNumbered s3.ide_devices count limit =
      carry s0.ide_devices s3.ide_devices count count limit (k3 ∙ k2 ∙ k1) refl h0 in
    elim (Bool-cases (status == 0)) [
      | inl no_drive ↦
          carry s3.ide_devices s'.ide_devices count count' (limit + 1)
            (ap (λ x. x.ide_devices) (sym (returned-state count count' s3 s' (rw no_drive at e3))))
            (returned-value count count' s3 s' (rw no_drive at e3))
            (later s3.ide_devices count limit h3)
      | inr answered ↦
          let (err, s4, k4, e4) =
            step_quietly (wait_identify fuel hw i) _ s3 s' count' (wait_identify-Quiet fuel hw i)
              (rw answered at e3) in
          let (kind, s5, k5, e5) =
            step_quietly (device_type hw i err) _ s4 s' count' (device_type-Quiet hw i err) e4 in
          settle-IsNumbered hw i j count limit kind s5 s' count'
            (carry s3.ide_devices s5.ide_devices count count limit (k5 ∙ k4) refl h3) ci cj p e5
    ]

-- `probe_drives`, the two loops of `ide_initialize`, from a table without drives: when it comes back with
-- `count`, the entries below `count` are drives that are there, each with a channel and a drive below 2, in
-- the order of their places and no two at the same place, and every other entry is empty.
pub probe_drives-IsNumbered :
    (fuel : ℕ) (hw : Drives) (s s' : Ide) (count : ℕ)
    → ((k : ℕ) → (s.ide_devices k).reserved ≡ 0)
    → probe_drives fuel hw s ≡ some (count, s')
    → IsNumbered s'.ide_devices count 4
unfolding probe_drives
probe_drives-IsNumbered fuel hw s s' count empty e =
    let none_yet : IsNumbered s.ide_devices 0 0 = record {
      present = λ k lt. absurd (omega arith);
      placed = λ k lt. absurd (omega arith);
      sorted = λ j k p lt. absurd (omega arith);
      absent = λ k le. empty k;
    } in
    let (c1, s1, w1, e1) = >>=-eq-some (probe_drive fuel hw 0 0 0) _ s s' count e in
    let (c2, s2, w2, e2) = >>=-eq-some (probe_drive fuel hw 0 1 c1) _ s1 s' count e1 in
    let (c3, s3, w3, e3) = >>=-eq-some (probe_drive fuel hw 1 0 c2) _ s2 s' count e2 in
    let h1 =
      probe_drive-IsNumbered fuel hw 0 0 0 0 s s1 c1 none_yet (omega arith) (omega arith) refl w1 in
    let h2 =
      probe_drive-IsNumbered fuel hw 0 1 c1 1 s1 s2 c2 h1 (omega arith) (omega arith) refl w2 in
    let h3 =
      probe_drive-IsNumbered fuel hw 1 0 c2 2 s2 s3 c3 h2 (omega arith) (omega arith) refl w3 in
    probe_drive-IsNumbered fuel hw 1 1 c3 3 s3 s' count h3 (omega arith) (omega arith) refl e3
