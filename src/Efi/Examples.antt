-- ===== src/Efi/Examples.antt =====
-- Memory that holds tables as the UEFI specification has them.
use mochivm.Prelude.{ℕ, ◌+◌, ◌≡◌, sym, ap, Option, none, some, List, String, ◌==◌, if◌then◌else◌}
use mochivm.Efi.Layout.{
  Field, offset_from, offset_of, efi_system_table, read_field, allocate_pointer,
}
use mochivm.Efi.Services.{system_table, text_output, Holds, allocate_pointer-SetAttribute}

abbrev at_offset : (ℕ → ℕ) → ℕ → Option ℕ → ℕ
at_offset memory p none = 0
at_offset memory p (some o) = memory (p + o)

abbrev value_in : (ℕ → ℕ) → ℕ → List Field → String → ℕ
value_in memory p fs name = at_offset memory p (offset_of fs name)

value_in-Holds :
    (memory : ℕ → ℕ) (p : ℕ) (fs : List Field) → Holds memory p fs (value_in memory p fs)
value_in-Holds memory p fs = record { holds = λ name o e. sym (ap (at_offset memory p) e) }

-- The system table is at 4096 and names the address 8192 for standard error; elsewhere each word is
-- its own address.
abbrev memory : ℕ → ℕ
memory a = if a == 4176 then 8192 else a

allocate_pointer-SetAttribute_example :
    (read_field memory 4096 efi_system_table "boot_services"
      ≡ some (value_in memory 4096 system_table "StdErr"))
    × (allocate_pointer memory 4096 ≡ some (value_in memory 8192 text_output "SetAttribute"))
unfolding offset_of offset_from
allocate_pointer-SetAttribute_example =
    allocate_pointer-SetAttribute memory 4096 (value_in memory 4096 system_table)
      (value_in memory 8192 text_output) (value_in-Holds memory 4096 system_table)
      (value_in-Holds memory 8192 text_output)
