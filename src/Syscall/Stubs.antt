-- ===== src/Syscall/Stubs.antt =====
-- The system calls that libc/ makes, against the branches of `isr128` in sys/idt.c.
use osproject.Prelude.{ℕ, ◌≡◌, refl, ◌==◌, if◌then◌else◌, arith}
use osproject.Syscall.{Handler, isr128}

-- The names that the stubs of libc/ use.
pub data Stub : Type 0 where
  read write open_file close opendir getdents fork execve exit wait4 waitid getpid getppid clrscr
        kill sleep getcwd chdir ps malloc lseek pipe dup2 :
      Stub

-- `__NR_` and the name.
abbrev pub number : Stub → ℕ
number Stub.read = 0
number Stub.write = 1
number Stub.open_file = 2
number Stub.close = 3
number Stub.clrscr = 7
number Stub.lseek = 8
number Stub.malloc = 9
number Stub.opendir = 16
number Stub.pipe = 22
number Stub.dup2 = 33
number Stub.sleep = 35
number Stub.getpid = 39
number Stub.fork = 57
number Stub.execve = 59
number Stub.exit = 60
number Stub.wait4 = 61
number Stub.kill = 62
number Stub.getdents = 78
number Stub.getcwd = 79
number Stub.chdir = 80
number Stub.getppid = 110
number Stub.waitid = 247
number Stub.ps = 299

-- What serves each of them.
abbrev pub served_by : Stub → ℕ → Handler
served_by Stub.read fd = if fd == 0 then Handler.read_input else Handler.read_tarfs
served_by Stub.write fd = if fd == 1 then Handler.print else Handler.nothing
served_by Stub.open_file arg = Handler.open_tarfs
served_by Stub.close arg = Handler.close_tarfs
served_by Stub.clrscr arg = Handler.clrscr
served_by Stub.lseek arg = Handler.nothing
served_by Stub.malloc arg = Handler.malloc
served_by Stub.opendir arg = Handler.open_dir
served_by Stub.pipe arg = Handler.nothing
served_by Stub.dup2 arg = Handler.nothing
served_by Stub.sleep arg = Handler.sleep
served_by Stub.getpid arg = Handler.getpid
served_by Stub.fork arg = Handler.fork
served_by Stub.execve arg = Handler.execvpe
served_by Stub.exit arg = Handler.exit
served_by Stub.wait4 arg = Handler.nothing
served_by Stub.kill arg = Handler.kill
served_by Stub.getdents arg = Handler.readdir_tarfs
served_by Stub.getcwd arg = Handler.getcwd
served_by Stub.chdir arg = Handler.chdir
served_by Stub.getppid arg = Handler.getppid
served_by Stub.waitid arg = Handler.waitpid
served_by Stub.ps arg = Handler.ps

-- Each stub's number reaches the branch that serves it: `read` by its file, `write` only for the
-- terminal. `wait4`, which the library's `wait` uses, `lseek`, `pipe` and `dup2` reach none.
pub isr128-number : (s : Stub) (arg : ℕ) → isr128 (number s) arg ≡ served_by s arg
unfolding isr128
isr128-number Stub.read arg = ground arith
isr128-number Stub.write arg = ground arith
isr128-number Stub.open_file arg = refl
isr128-number Stub.close arg = refl
isr128-number Stub.clrscr arg = refl
isr128-number Stub.lseek arg = refl
isr128-number Stub.malloc arg = refl
isr128-number Stub.opendir arg = refl
isr128-number Stub.pipe arg = refl
isr128-number Stub.dup2 arg = refl
isr128-number Stub.sleep arg = refl
isr128-number Stub.getpid arg = refl
isr128-number Stub.fork arg = refl
isr128-number Stub.execve arg = refl
isr128-number Stub.exit arg = refl
isr128-number Stub.wait4 arg = refl
isr128-number Stub.kill arg = refl
isr128-number Stub.getdents arg = refl
isr128-number Stub.getcwd arg = refl
isr128-number Stub.chdir arg = refl
isr128-number Stub.getppid arg = refl
isr128-number Stub.waitid arg = refl
isr128-number Stub.ps arg = refl
