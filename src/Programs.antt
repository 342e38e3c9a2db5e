-- ===== src/Programs.antt =====
-- bin/echo, bin/sleep, bin/kill, bin/cat and bin/ls: the calls that their `main` makes, in their order. What
-- the kernel answers to a call is a parameter.
pub mod Numbers
use osproject.Prelude.{
  ℕ, zero, suc, ◌+◌, ◌-◌, ◌*◌, ◌/◌, ◌%◌, Bool, true, false, ◌&&◌, ◌||◌, not, Option, none, some,
  List, [], ◌∷◌, ◌++◌, ltb, ◌==◌, if◌then◌else◌, length, get_elem?,
}
use osproject.Prelude.Int.{ℤ, pos, negsuc, signed32, ltb_ℤ}
use osproject.Text.{Bytes}

-- A call of the C library.
pub data Call : Type 0 where
  puts : Bytes → Call
  sleep : ℤ → Call
  kill_call : ℤ → Call
  close : ℤ → Call

-- A `char`, as an `int` of 32 bits.
abbrev pub char_word : ℕ → ℕ
char_word c = if ltb c 128 then c else c + 4294967040

-- The loop of `strtoInt`, behind `dec`.
unfoldable pub to_int : ℕ → Bytes → ℕ
to_int dec [] = dec
to_int dec (c ∷ num) = to_int ((dec * 10 + (char_word c + 4294967248)) % 4294967296) num

-- `strtoInt` of bin/kill/kill.c and bin/sleep/sleep.c.
unfoldable pub str_to_int : Bytes → ℤ
str_to_int num = signed32 (to_int 0 num)

abbrev pub blanks : ℕ → Bytes
blanks zero = []
blanks (suc n) = b' ' ∷ blanks n

abbrev pub line_end : Bytes
line_end = b'\n' ∷ []

-- `main` of bin/echo, from `argv[i]` on.
unfoldable pub echo_args : List Bytes → List Call
echo_args [] = puts line_end ∷ []
echo_args (a ∷ argv) = puts a ∷ puts (blanks 3) ∷ echo_args argv

-- `main` of bin/echo; `argv[0]` is its name.
unfoldable pub echo_main : List Bytes → List Call
echo_main [] = puts line_end ∷ []
echo_main (name ∷ argv) = echo_args argv

-- `main` of bin/sleep; without an argument it reads through NULL.
unfoldable pub sleep_main : List Bytes → Option (List Call)
sleep_main argv = elim (get_elem? argv 1) [
  | none ↦ none
  | some a ↦ some (sleep (str_to_int a) ∷ [])
]

-- "kill: usage: kill -9 pid".
abbrev pub kill_usage : Bytes
kill_usage =
    b'k' ∷ b'i' ∷ b'l' ∷ b'l' ∷ b':' ∷ b' ' ∷ b'u' ∷ b's' ∷ b'a' ∷ b'g' ∷ b'e' ∷ b':' ∷ b' ' ∷ b'k'
    ∷ b'i' ∷ b'l' ∷ b'l' ∷ b' ' ∷ b'-' ∷ b'9' ∷ b' ' ∷ b'p' ∷ b'i' ∷ b'd' ∷ []

-- `main` of bin/kill: with fewer arguments it goes on behind its message and reads through NULL; a negative
-- number is killed too.
unfoldable pub kill_main : List Bytes → Option (List Call)
kill_main argv = elim (get_elem? argv 2) [
  | none ↦ none
  | some a ↦
      let pid = str_to_int a in
      some ((if ltb_ℤ pid (pos 0) then puts kill_usage ∷ [] else []) ++ kill_call pid ∷ [])
]

-- The kernel's answers to `open`, and the text that `read` leaves in a buffer.
pub record SystemAnswers : Type 0 where
  pub open_file : Bytes → ℤ
  pub contents : ℤ → Bytes
  pub entries : Bytes → Option (List Bytes)
  pub cwd : Bytes

-- "-cat: No file name given\n", "cat: " and ": No such file\n".
abbrev pub no_name_text : Bytes
no_name_text =
    b'-' ∷ b'c' ∷ b'a' ∷ b't' ∷ b':' ∷ b' ' ∷ b'N' ∷ b'o' ∷ b' ' ∷ b'f' ∷ b'i' ∷ b'l' ∷ b'e' ∷ b' '
    ∷ b'n' ∷ b'a' ∷ b'm' ∷ b'e' ∷ b' ' ∷ b'g' ∷ b'i' ∷ b'v' ∷ b'e' ∷ b'n' ∷ line_end

abbrev pub cat_text : Bytes
cat_text = b'c' ∷ b'a' ∷ b't' ∷ b':' ∷ b' ' ∷ []

abbrev pub no_file_text : Bytes
no_file_text =
    b':' ∷ b' ' ∷ b'N' ∷ b'o' ∷ b' ' ∷ b's' ∷ b'u' ∷ b'c' ∷ b'h' ∷ b' ' ∷ b'f' ∷ b'i' ∷ b'l' ∷ b'e'
    ∷ line_end

-- `main` of bin/cat.
unfoldable pub cat_main : SystemAnswers → List Bytes → List Call
cat_main os argv = elim (get_elem? argv 1) [
  | none ↦ puts no_name_text ∷ []
  | some a ↦
      let fp = os.open_file a in
      if ltb_ℤ fp (pos 0)
      then puts cat_text ∷ puts a ∷ puts no_file_text ∷ []
      else puts (os.contents fp) ∷ close fp ∷ []
]

-- `dir[l - 1] == '/'`.
abbrev pub ends_in_slash : Bytes → Bool
ends_in_slash [] = false
ends_in_slash (c ∷ []) = c == b'/'
ends_in_slash (c ∷ d ∷ dir) = ends_in_slash (d ∷ dir)

-- `dir` of bin/ls, which has 50 bytes; an empty argument is read in front of it.
unfoldable pub ls_dir : SystemAnswers → List Bytes → Option Bytes
ls_dir os argv = elim (get_elem? argv 1) [
  | none ↦
      let dir = if ltb 1 (length os.cwd) then os.cwd ++ b'/' ∷ [] else os.cwd in
      if ltb (length dir) 50 then some dir else none
  | some [] ↦ none
  | some (c ∷ a) ↦
      let dir = if ends_in_slash (c ∷ a) then c ∷ a else (c ∷ a) ++ b'/' ∷ [] in
      if ltb (length dir) 50 then some dir else none
]

-- "Unknown file path passed\n".
abbrev pub unknown_text : Bytes
unknown_text =
    b'U' ∷ b'n' ∷ b'k' ∷ b'n' ∷ b'o' ∷ b'w' ∷ b'n' ∷ b' ' ∷ b'f' ∷ b'i' ∷ b'l' ∷ b'e' ∷ b' ' ∷ b'p'
    ∷ b'a' ∷ b't' ∷ b'h' ∷ b' ' ∷ b'p' ∷ b'a' ∷ b's' ∷ b's' ∷ b'e' ∷ b'd' ∷ line_end

-- The loop of bin/ls over the entries.
unfoldable pub list_entries : List Bytes → List Call
list_entries [] = puts line_end ∷ []
list_entries (name ∷ names) = puts name ∷ puts (blanks 5) ∷ list_entries names

-- `main` of bin/ls, without the last close.
unfoldable pub ls_main : SystemAnswers → List Bytes → Option (List Call)
ls_main os argv = elim (ls_dir os argv) [
  | none ↦ none
  | some dir ↦ elim (os.entries dir) [
    | none ↦ some (puts unknown_text ∷ puts dir ∷ [])
    | some names ↦ some (list_entries names)
  ]
]
