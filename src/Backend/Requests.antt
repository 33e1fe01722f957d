-- ===== src/Backend/Requests.antt =====
-- The configuration of a virtual machine in manager/src/vm.rs, and what its code asks the operating
-- system.
use mochivm.Prelude.{ℕ, Bool, Option, List, String}
use mochivm.Buffer.{Buffer}
use Prim.Native.String.{◌++◌}

pub data Accel : Type 0 where
  tcg kvm whpx : Accel

unfoldable pub label : Accel → String
label tcg = "Software emulation"
label kvm = "Hardware (KVM, linux)"
label whpx = "Hardware (WHPX, windows)"

pub record VmConfig : Type 0 where
  pub name : String
  pub ram_mb : ℕ
  pub vcpus : ℕ
  pub accel : Accel

abbrev pub default_config : VmConfig
default_config = record { name = "mochivm"; ram_mb = 512; vcpus = 1; accel = tcg }

pub data Event : Type 0 where
  create_dir read_efi write_disk : (path : String) → Event
  copy_vars : (from to : String) → Event
  spawn : (program : String) (arguments : List String) → Event
  spawned : (pid : ℕ) → Event
  start_readers : Event
  kill wait try_wait : (pid : ℕ) → Event

-- `Result<A, String>`.
pub data Result (A : Type 0) : Type 0 where
  fine : A → Result A
  error : String → Result A

-- The answers to the newest event; `none` is no error.
pub record System : Type 0 where
  pub create_dir : List Event → Option String
  pub read_efi : List Event → Result Buffer
  pub save : List Event → Option String
  pub copy_vars : List Event → Option String
  pub spawn : List Event → Result ℕ
  -- Whether the process has the pipe.
  pub stdout : List Event → Bool
  pub stderr : List Event → Bool
  -- Whether `try_wait` finds the process running.
  pub try_wait : List Event → Bool
  pub exists : List Event → String → Bool
  -- `cfg!(windows)`, the variable MOCHIVM_QEMU, and the directory of the executable.
  pub windows : Bool
  pub qemu_variable : Option String
  pub exe_dir : Option String

abbrev pub join : String → String → String
join dir name = dir ++ ("/" ++ name)
