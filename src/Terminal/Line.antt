-- ===== src/Terminal/Line.antt =====
-- A line that is typed on the keyboard is the line that `read_input` of sys/terminal.c returns.
use osproject.Prelude.{
  ℕ, zero, suc, ◌+◌, ◌-◌, ◌≤◌, ◌<◌, ◌≡◌, ◌≢◌, refl, ap, ◌∙◌, sym, Bool, true, false, ◌||◌, ◌&&◌,
  not, List, [], ◌∷◌, Option, none, some, ltb, ◌==◌, length, arith,
}
use osproject.Prelude.Loops.{update, update_self, update_other}
use mathlib.Core.Path.{subst}
use osproject.Text.{Bytes}
use osproject.Screen.{put_text}
use osproject.Process.{running, set_state}
use osproject.Process.Life.{wake_process}
use osproject.Terminal.{
  Console, buf_bytes, key_char, type_char, type_key, enter, letter, press, write_terminal,
  scan_line, end_round, read_round, returns,
}

-- No key with a meaning of its own.
abbrev pub is_plain : ℕ → Bool
is_plain c =
    ltb 0 c
    && (ltb c 58 && not ((c == 14) || ((c == 28) || ((c == 29) || ((c == 42) || (c == 54))))))

-- The codes of plain keys and their characters without shift.
pub data Keys : List ℕ → Bytes → Type 0 where
  nil : Keys [] []
  cons :
      {c a : ℕ} {codes : List ℕ} {chars : Bytes}
      → is_plain c ≡ true
      → key_char c 0 ≡ some a
      → a ≢ b'\n'
      → Keys codes chars
      → Keys (c ∷ codes) (a ∷ chars)

-- One interrupt for each code.
unfoldable pub type_keys : List ℕ → Console → Option Console
unfolding write_terminal
type_keys [] s = some s
type_keys (c ∷ codes) s = elim (write_terminal c c s) [ none ↦ none | some s' ↦ type_keys codes s' ]

-- The bytes stand in `buf` from `i` on.
abbrev Stored : (ℕ → ℕ) → ℕ → Bytes → Type 0
Stored buf i [] = Unit {0}
Stored buf i (a ∷ chars) = (buf i ≡ a) × Stored buf (i + 1) chars

abbrev NoNewline : Bytes → Type 0
NoNewline [] = Unit {0}
NoNewline (a ∷ chars) = (a ≢ b'\n') × NoNewline chars

Stored-update :
    (buf : ℕ → ℕ) (j i v : ℕ) (chars : Bytes)
    → j < i
    → Stored buf i chars
    → Stored (update buf j v) i chars
Stored-update buf j i v [] lt h = tt
Stored-update buf j i v (a ∷ chars) lt h = (
  update_other buf j v i (omega arith) ∙ h.0,
  Stored-update buf j (i + 1) v chars (omega arith) h.1,
)

Stored-update_after :
    (buf : ℕ → ℕ) (j i v : ℕ) (chars : Bytes)
    → i + length chars ≤ j
    → Stored buf i chars
    → Stored (update buf j v) i chars
Stored-update_after buf j i v [] le h = tt
Stored-update_after buf j i v (a ∷ chars) le h = (
  update_other buf j v i (omega arith) ∙ h.0,
  Stored-update_after buf j (i + 1) v chars (omega arith) h.1,
)

scan_line-Stored :
    (chars : Bytes) (n i : ℕ) (buf : ℕ → ℕ)
    → Stored buf i chars
    → NoNewline chars
    → buf (i + length chars) ≡ b'\n'
    → length chars < n
    → (buf' : ℕ → ℕ) × (scan_line n i buf ≡ (chars, some (i + length chars), buf'))
unfolding scan_line
scan_line-Stored chars zero i buf h plain end lt = absurd (omega arith)
scan_line-Stored [] (suc n) i buf h plain end lt =
    let flat : i + 0 ≡ i = omega arith in
    let here : (buf i == b'\n') ≡ true = ground (arith, end) in (buf, rw (here, flat) refl)
scan_line-Stored (a ∷ chars) (suc n) i buf h plain end lt =
    let next : (i + 1) + length chars ≡ i + suc (length chars) = omega arith in
    let more : (buf i == b'\n') ≡ false = ground (arith, h.0, plain.0) in
    let (buf', runs) =
      scan_line-Stored chars n (i + 1) (update buf i 0)
        (Stored-update buf i (i + 1) 0 chars (omega arith) h.1) plain.1
        (update_other buf i 0 _ (omega arith) ∙ ap buf next ∙ end) (omega arith) in
    (buf', rw (more, runs, next, h.0) refl)

-- What typing leaves: `chars` stand in `buf` from the old `i` on, and nothing before them has changed.
record Typed (chars : Bytes) (s s' : Console) : Type 0 where
  at_end : s'.i ≡ s.i + length chars
  stored : Stored s'.buf s.i chars
  before : (j : ℕ) → j < s.i → s'.buf j ≡ s.buf j
  same_offset : s'.offset ≡ s.offset
  same_lines : s'.no_lines ≡ s.no_lines

plain_key :
    (c a : ℕ) (s : Console)
    → is_plain c ≡ true
    → key_char c 0 ≡ some a
    → s.ctrl ≡ 0
    → s.caps ≡ 0
    → s.i < buf_bytes
    → (s' : Console) × (write_terminal c c s ≡ some s')
      × (s'.buf ≡ update s.buf s.i a)
      × (s'.i ≡ s.i + 1)
      × (s'.offset ≡ s.offset)
      × (s'.no_lines ≡ s.no_lines)
      × (s'.ctrl ≡ 0)
      × (s'.caps ≡ 0)
unfolding write_terminal press letter type_key type_char
plain_key c a s plain char no_ctrl no_caps room =
    let some_key : (c == 0) ≡ false = ground arith in
    let in_map : ((c == 0) || ltb 58 c) ≡ false = ground arith in
    let not14 : (c == 14) ≡ false = ground arith in
    let not28 : (c == 28) ≡ false = ground arith in
    let not29 : (c == 29) ≡ false = ground arith in
    let no_shift : ((c == 42) || (c == 54)) ≡ false = ground arith in
    let fits : ltb s.i buf_bytes ≡ true = ground arith in
    (
      record s {
        ctrl = 0;
        caps = 0;
        screen = put_text (a ∷ []) s.screen;
        buf = update s.buf s.i a;
        i = s.i + 1;
      },
      rw (some_key, in_map, not14, not28, not29, no_shift, no_ctrl, no_caps, char, fits) refl,
      refl,
      refl,
      refl,
      refl,
      refl,
      refl,
    )

type_keys-Typed :
    (codes : List ℕ) (chars : Bytes) (s : Console)
    → Keys codes chars
    → s.ctrl ≡ 0
    → s.caps ≡ 0
    → s.i + length chars < buf_bytes
    → (s' : Console) × (type_keys codes s ≡ some s') × Typed chars s s'
unfolding type_keys
type_keys-Typed [] [] s nil no_ctrl no_caps room = (
  s,
  refl,
  record {
    at_end = omega arith;
    stored = tt;
    before = λ j lt. refl;
    same_offset = refl;
    same_lines = refl;
  },
)
type_keys-Typed [] (a ∷ chars) s odd no_ctrl no_caps room = elim odd [ ]
type_keys-Typed (c ∷ codes) [] s odd no_ctrl no_caps room = elim odd [ ]
type_keys-Typed (c ∷ codes) (a ∷ chars) s (cons plain char line keys) no_ctrl no_caps room =
    let (t, typed, wrote, next, offset, lines, ctrl, caps) =
      plain_key c a s plain char no_ctrl no_caps (omega arith) in
    let (s', rest, done) = type_keys-Typed codes chars t keys ctrl caps (omega (arith, next)) in
    (
      s',
      rw (typed, type_keys) rest,
      record {
        at_end = done.at_end ∙ omega (arith, next);
        stored = (
          done.before s.i (omega (arith, next))
              ∙ ap (λ (f : ℕ → ℕ). f s.i) wrote
              ∙ update_self s.buf s.i a,
          subst (λ x. Stored s'.buf x chars) next done.stored,
        );
        before = λ j lt.
            done.before j (omega (arith, next))
            ∙ ap (λ (f : ℕ → ℕ). f j) wrote
            ∙ update_other s.buf s.i a j (omega arith);
        same_offset = done.same_offset ∙ offset;
        same_lines = done.same_lines ∙ lines;
      },
    )

Keys-NoNewline : {codes : List ℕ} {chars : Bytes} → Keys codes chars → NoNewline chars
Keys-NoNewline nil = tt
Keys-NoNewline (cons _ _ line keys) = (line, Keys-NoNewline keys)

looked :
    (x : Console)
    → ltb 0 x.no_lines ≡ true
    → read_round x ≡ end_round (scan_line (buf_bytes - x.offset) x.offset x.buf) x
unfolding read_round
looked x h = rw h refl

enter-read :
    (chars : Bytes) (s t : Console)
    → Typed chars s t
    → NoNewline chars
    → s.offset ≡ s.i
    → s.i + length chars < buf_bytes
    → (s' : Console) × (u : Console) × (write_terminal 28 28 t ≡ some s')
      × (read_round s' ≡ returns chars u)
      × (u.offset ≡ u.i)
      × (u.no_lines ≡ s.no_lines)
unfolding write_terminal press enter type_char read_round end_round
enter-read chars s t typed plain start room =
    let ended : Console = record t {
      screen = put_text (b'\n' ∷ []) t.screen;
      buf = update t.buf t.i b'\n';
      i = t.i + 1;
      no_lines = t.no_lines + 1;
      kernel = wake_process t.kernel;
    } in
    let begins : t.offset ≡ s.i = typed.same_offset ∙ start in
    let fits : ltb t.i buf_bytes ≡ true = ground (arith, typed.at_end) in
    let some_line : ltb 0 (t.no_lines + 1) ≡ true = ground arith in
    let (buf', runs) =
      scan_line-Stored chars (buf_bytes - s.i) s.i ended.buf
        (Stored-update_after t.buf t.i s.i b'\n' chars (omega (arith, typed.at_end)) typed.stored)
        plain (ap ended.buf (sym typed.at_end) ∙ update_self t.buf t.i b'\n') (omega arith) in
    (
      ended,
      record ended {
        buf = buf';
        offset = s.i + length chars + 1;
        no_lines = t.no_lines + 1 - 1;
        kernel = set_state (wake_process t.kernel).r running (wake_process t.kernel);
      },
      rw fits refl,
      looked ended some_line
          ∙ ap (λ x. end_round x ended)
              (subst
                (λ x.
                  scan_line (buf_bytes - x) x ended.buf ≡ (chars, some (s.i + length chars), buf'))
                (sym begins) runs),
      omega (arith, typed.at_end),
      omega (arith, typed.same_lines),
    )

-- When the line buffer holds nothing unread, no shift or control key is pending and there is room for the
-- line, typing plain keys and then the enter key, and running a round of `read_input`, returns exactly the
-- characters of the keys, and leaves nothing unread again.
pub line_typed-read :
    (codes : List ℕ) (chars : Bytes) (s : Console)
    → Keys codes chars
    → s.ctrl ≡ 0
    → s.caps ≡ 0
    → s.no_lines ≡ 0
    → s.offset ≡ s.i
    → s.i + length chars < buf_bytes
    → (t : Console) × (s' : Console) × (u : Console) × (type_keys codes s ≡ some t)
      × (write_terminal 28 28 t ≡ some s')
      × (read_round s' ≡ returns chars u)
      × (u.offset ≡ u.i)
      × (u.no_lines ≡ 0)
line_typed-read codes chars s keys no_ctrl no_caps no_lines start room =
    let (t, typed, done) = type_keys-Typed codes chars s keys no_ctrl no_caps room in
    let (s', u, ended, line, unread, lines) =
      enter-read chars s t done (Keys-NoNewline keys) start room in
    (t, s', u, typed, ended, line, unread, lines ∙ no_lines)
