-- ===== src/Backend/Command.antt =====
-- The program that manager/src/vm.rs starts, and its arguments.
use mochivm.Prelude.{
  Bool, true, false, Option, none, some, List, [], ◌∷◌, String, if◌then◌else◌, decimal, find?,
}
use mochivm.Backend.Requests.{Accel, tcg, kvm, whpx, VmConfig, Event, System, join}
use mathlib.Core.List.{◌++◌ as ◌+++◌}
use Prim.Native.String.{◌++◌}
use text.Mathlib.Text.{◌==◌}

-- The programs that `qemu_bin` looks for beside the executable, and where QEMU is installed.
unfoldable pub bundled : Option String → List String
bundled none = []
bundled (some dir) =
    join (join dir "engine") "mochivm-vm.exe"
    ∷ join (join dir "engine") "qemu-system-x86_64.exe"
    ∷ []

unfoldable pub installed : Bool → List String
installed false = []
installed true =
    "C:\\Program Files\\qemu\\qemu-system-x86_64.exe"
    ∷ "C:\\Program Files (x86)\\qemu\\qemu-system-x86_64.exe" ∷ "C:\\qemu\\qemu-system-x86_64.exe"
    ∷ []

-- `qemu_bin` from its last loop on, and from its first.
unfoldable pub find_installed : System → List Event → String
find_installed s h = elim (find? (s.exists h) (installed s.windows)) [
  | some b ↦ b
  | none ↦ "qemu-system-x86_64"
]

unfoldable pub find_engine : System → List Event → String
find_engine s h = elim (find? (s.exists h) (bundled s.exe_dir)) [
  | some c ↦ c
  | none ↦ find_installed s h
]

unfoldable pub by_variable : Option String → System → List Event → String
by_variable none s h = find_engine s h
by_variable (some p) s h = if p == "" then find_engine s h else p

unfoldable pub qemu_bin : System → List Event → String
qemu_bin s h = by_variable s.qemu_variable s h

unfoldable pub accel_arguments : Accel → List String
accel_arguments tcg = "-accel" ∷ "tcg" ∷ "-cpu" ∷ "max" ∷ []
accel_arguments kvm = "-enable-kvm" ∷ "-cpu" ∷ "host" ∷ []
accel_arguments whpx = "-accel" ∷ "whpx" ∷ "-cpu" ∷ "max" ∷ []

-- The arguments that `start` gives QEMU, but for those of the accelerator.
unfoldable pub machine_arguments : VmConfig → List String
machine_arguments cfg =
    "-machine" ∷ "q35" ∷ "-m" ∷ (decimal 5 cfg.ram_mb ++ "M") ∷ "-smp" ∷ decimal 3 cfg.vcpus ∷ []

unfoldable pub device_arguments : (code vars_copy disk : String) → List String
device_arguments code vars_copy disk =
    "-drive"
    ∷ ("if=pflash,format=raw,readonly=on,file=" ++ code)
    ∷ "-drive"
    ∷ ("if=pflash,format=raw,file=" ++ vars_copy)
    ∷ "-drive"
    ∷ ("if=virtio,format=raw,file=" ++ disk)
    ∷ "-serial"
    ∷ "stdio"
    ∷ "-monitor"
    ∷ "none"
    ∷ "-display"
    ∷ "none"
    ∷ "-vga"
    ∷ "none"
    ∷ "-nic"
    ∷ "none"
    ∷ "-no-reboot"
    ∷ "-no-shutdown"
    ∷ []

unfoldable pub qemu_arguments : VmConfig → (code vars_copy disk : String) → List String
qemu_arguments cfg code vars_copy disk =
    machine_arguments cfg +++ (accel_arguments cfg.accel +++ device_arguments code vars_copy disk)
