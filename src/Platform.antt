-- ===== src/Platform.antt =====
-- What the program calls and does not implement: the conversions library (include/conversions.h;
-- lib/presi.a is a binary), the clock, and the process calls of the operating system.
use posix_printer_spooler.Prelude.{ℕ, ℤ, Bool, Option, List, ◌==◌}
use posix_printer_spooler.Text.{Text}

-- A `FILE_TYPE *`: the address that `==` compares, and the fields of the object there.
pub record FileType : Type 0 where
  pub address : ℕ
  pub name : Text
  pub index : ℕ

-- `p == q` on `FILE_TYPE *`.
abbrev pub same_type : FileType → FileType → Bool
same_type a b = a.address == b.address

pub record Conversion : Type 0 where
  pub from : FileType
  pub to : FileType
  pub cmd_and_args : List Text

pub data Signal : Type 0 where
  sigstop sigcont sigterm : Signal

-- The status of a child that `waitpid` reports, by the macro that recognises it: WIFSTOPPED,
-- WIFCONTINUED, WIFEXITED with WEXITSTATUS, WIFSIGNALED with WTERMSIG.
pub data WaitStatus : Type 0 where
  stopped continued : WaitStatus
  exited signaled : ℕ → WaitStatus

-- `Table` is the library's state, `World` that of the clock and the kernel. A `NULL` result is
-- `none`; the array that `find_conversion_path` returns is a list. `fork` gives the parent's result.
pub record Platform : Type 1 where
  pub Table : Type 0
  pub define_type : Text → Table → Option FileType × Table
  pub find_type : Text → Table → Option FileType
  pub infer_file_type : Text → Table → Option FileType
  pub define_conversion : Text → Text → List Text → Table → Option Conversion × Table
  pub find_conversion_path : Text → Text → Table → Option (List Conversion)
  pub World : Type 0
  pub time : World → ℕ × World
  pub fork : World → ℤ × World
  pub killpg : ℤ → Signal → World → ℤ × World
