-- ===== src/Vmcs/HostEntry/Examples.antt =====
-- `host_entry` of src/hv/vmcs.rs with a handler that clears every register.
use mochivm.Prelude.{◌%◌, ◌^◌, ◌≡◌, refl, arith, ◌==◌}
use mochivm.Vmcs.HostEntry.{rax, rbx, number, Cpu, run, saves, host_entry, left, resumes}
use mochivm.Vmcs.HostEntry.Restores.{Conforms, host_entry-restores}

abbrev clearing : Cpu → Cpu
clearing c = record c { regs = λ r. 0 }

clearing-Conforms : Conforms clearing
clearing-Conforms = record { pointer = λ c. refl; above = λ c a l. refl }

abbrev at_exit : Cpu
at_exit = record { regs = number; rsp = 0x8000; memory = λ a. 0 }

host_entry-restores_example :
    ((run saves at_exit).rsp % 16 ≡ 0)
    × (resumes (host_entry clearing at_exit)
        ≡ ((clearing (run saves at_exit)).regs rax % 2 ^ 8 == 0))
    × ((left (host_entry clearing at_exit)).regs rbx ≡ 3)
    × ((left (host_entry clearing at_exit)).rsp ≡ 0x8000)
host_entry-restores_example =
    host_entry-restores clearing clearing-Conforms at_exit (omega arith) (omega arith) rbx refl
