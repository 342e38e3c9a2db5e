-- ===== src/Syscall.antt =====
-- `isr128` of sys/idt.c: which handler a system call reaches, and include/syscall_const.h, the numbers
-- that the stubs of libc/ pass.
pub mod Stubs
use osproject.Prelude.{ℕ, Bool, ◌&&◌, ◌==◌, if◌then◌else◌}

-- The branches of `isr128`; `nothing` is the way past all of them, which returns 0.
pub data Handler : Type 0 where
  read_input print fork execvpe read_tarfs open_tarfs close_tarfs open_dir readdir_tarfs exit
        waitpid getpid getppid clrscr kill sleep getcwd chdir ps malloc nothing :
      Handler

-- The chain of tests, on the call's number and its first argument.
unfoldable pub isr128 : ℕ → ℕ → Handler
isr128 cval rbx =
    if (cval == 0) && (rbx == 0)
    then read_input
    else if (cval == 1) && (rbx == 1)
    then print
    else if cval == 57
    then fork
    else if cval == 59
    then execvpe
    else if cval == 0
    then read_tarfs
    else if cval == 2
    then open_tarfs
    else if cval == 3
    then close_tarfs
    else if cval == 16
    then open_dir
    else if cval == 78
    then readdir_tarfs
    else if cval == 60
    then exit
    else if cval == 247
    then waitpid
    else if cval == 39
    then getpid
    else if cval == 110
    then getppid
    else if cval == 7
    then clrscr
    else if cval == 62
    then kill
    else if cval == 35
    then sleep
    else if cval == 79
    then getcwd
    else if cval == 80
    then chdir
    else if cval == 299
    then ps
    else if cval == 9
    then malloc
    else nothing
