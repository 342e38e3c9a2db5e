-- ===== src/Terminal.antt =====
-- sys/terminal.c: the keyboard's interrupt handler, the line buffer, and `read_input`.
pub mod Line
pub mod Handler
use mathlib.Core.Option
use osproject.Prelude.{
  ℕ, zero, suc, ◌+◌, ◌-◌, ◌<◌, Bool, true, false, ◌||◌, List, [], ◌∷◌, Option, none, some, ltb,
  ◌==◌, if◌then◌else◌, get_elem?,
}
use osproject.Prelude.Loops.{update}
use osproject.Text.{Bytes}
use osproject.Process.{Kernel, running, sleeping, set_state, yield_to}
use osproject.Process.Life.{wake_process}
use osproject.Screen.{Screen, backspace, put_text}

-- `code_map`: the characters of a scan code, without and with the shift key.
abbrev pub code_map : List (ℕ × ℕ)
code_map =
    (0, 0)
    ∷ (0, 0)
    ∷ (b'1', b'!')
    ∷ (b'2', b'@')
    ∷ (b'3', b'#')
    ∷ (b'4', b'$')
    ∷ (b'5', b'%')
    ∷ (b'6', b'^')
    ∷ (b'7', b'&')
    ∷ (b'8', b'*')
    ∷ (b'9', b'(')
    ∷ (b'0', b')')
    ∷ (b'-', b'_')
    ∷ (b'=', b'+')
    ∷ (8, 8)
    ∷ (9, 9)
    ∷ (b'q', b'Q')
    ∷ (b'w', b'W')
    ∷ (b'e', b'E')
    ∷ (b'r', b'R')
    ∷ (b't', b'T')
    ∷ (b'y', b'Y')
    ∷ (b'u', b'U')
    ∷ (b'i', b'I')
    ∷ (b'o', b'O')
    ∷ (b'p', b'P')
    ∷ (b'[', b'{')
    ∷ (b']', b'}')
    ∷ (b'^', b'M')
    ∷ (b' ', b'^')
    ∷ (b'a', b'A')
    ∷ (b's', b'S')
    ∷ (b'd', b'D')
    ∷ (b'f', b'F')
    ∷ (b'g', b'G')
    ∷ (b'h', b'H')
    ∷ (b'j', b'J')
    ∷ (b'k', b'K')
    ∷ (b'l', b'L')
    ∷ (b';', b':')
    ∷ (39, 34)
    ∷ (96, b'~')
    ∷ (0, 0)
    ∷ (92, b'|')
    ∷ (b'z', b'Z')
    ∷ (b'x', b'X')
    ∷ (b'c', b'C')
    ∷ (b'v', b'V')
    ∷ (b'b', b'B')
    ∷ (b'n', b'N')
    ∷ (b'm', b'M')
    ∷ (b',', b'<')
    ∷ (b'.', b'>')
    ∷ (b'/', b'?')
    ∷ (0, 0)
    ∷ (0, 0)
    ∷ (0, 0)
    ∷ (b' ', b' ')
    ∷ []

-- The variables of terminal.c, with the screen and the kernel that its functions change.
pub record Console : Type 0 where
  pub offset : ℕ
  pub caps : ℕ
  pub ctrl : ℕ
  pub i : ℕ
  pub no_lines : ℕ
  pub buf : ℕ → ℕ
  pub screen : Screen
  pub kernel : Kernel

-- The length of `buf`.
abbrev pub buf_bytes : ℕ
buf_bytes = 4096

-- `*(buf + i) = a; i++`, echoed first; past the end of `buf` the model stops.
unfoldable pub type_char : ℕ → Console → Option Console
type_char a s =
    if ltb s.i buf_bytes
    then some
        (record s { screen = put_text (a ∷ []) s.screen; buf = update s.buf s.i a; i = s.i + 1 })
    else none

-- The backspace key: only what was typed after `offset` is taken back.
unfoldable pub erase : Console → Option Console
erase s =
    if s.offset == s.i
    then some s
    else if s.i == 0
    then none
    else some
        (record s { screen = backspace s.screen; buf = update s.buf (s.i - 1) 0; i = s.i - 1 })

-- The enter key ends a line and wakes a reader.
unfoldable pub enter : Console → Option Console
unfolding type_char
enter s =
    Option.map
      (λ (t : Console). record t { no_lines = t.no_lines + 1; kernel = wake_process t.kernel })
      (type_char b'\n' s)

-- `code_map[c][shift]`, which is read past the end for the code 58.
abbrev pub key_char : ℕ → ℕ → Option ℕ
key_char c shift = Option.map (λ p. if shift == 0 then p.0 else p.1) (get_elem? code_map c)

unfoldable pub type_key : Option ℕ → Console → Option Console
unfolding type_char
type_key none s = none
type_key (some a) s = type_char a s

-- Every other key; after the control key it is as if with shift.
unfoldable pub letter : ℕ → Console → Option Console
unfolding type_key
letter c s =
    type_key (key_char c (if s.ctrl == 1 then 1 else s.caps))
      (record s { ctrl = if s.ctrl == 1 then 0 else s.ctrl; caps = 0 })

unfoldable pub press : ℕ → Console → Option Console
unfolding erase enter letter type_key
press c s =
    if (c == 0) || ltb 58 c
    then some s
    else if c == 14
    then erase s
    else if c == 28
    then enter s
    else if c == 29
    then type_key (key_char c 1) (record s { ctrl = 1 })
    else if (c == 42) || (c == 54)
    then some (record s { caps = 1 })
    else letter c s

-- `write_terminal`, over the two bytes that the keyboard's port gives.
unfoldable pub write_terminal : ℕ → ℕ → Console → Option Console
unfolding press
write_terminal first second s = press (if first == 0 then 0 else second) s

-- The loop of `read_input` from index `i` on: the bytes that it copies to `b`, where it meets the end of
-- the line, and `buf` after it.
unfoldable pub scan_line : ℕ → ℕ → (ℕ → ℕ) → Bytes × Option ℕ × (ℕ → ℕ)
scan_line zero i buf = ([], none, buf)
scan_line (suc n) i buf =
    let rest = scan_line n (i + 1) (update buf i 0) in
    if buf i == b'\n' then ([], some i, buf) else (buf i ∷ rest.0, rest.1, rest.2)

-- How a round of `read_input` ends: it returns, or it yields. `b` is what it has written to its buffer.
pub data Round : Type 0 where
  returns : (b : Bytes) → Console → Round
  yields : (b : Bytes) → Console → Round

unfoldable pub end_round : Bytes × Option ℕ × (ℕ → ℕ) → Console → Round
end_round (b, none, buf) s = yields b (record s { buf = buf; kernel = yield_to s.kernel })
end_round (b, some k, buf) s = returns b (record s {
  buf = buf;
  offset = k + 1;
  no_lines = s.no_lines - 1;
  kernel = set_state s.kernel.r running s.kernel;
})

-- One round of the loop of `read_input`.
unfoldable pub read_round : Console → Round
unfolding scan_line end_round
read_round s =
    if ltb 0 s.no_lines
    then end_round (scan_line (buf_bytes - s.offset) s.offset s.buf) s
    else yields [] (record s { kernel = yield_to (set_state s.kernel.r sleeping s.kernel) })
