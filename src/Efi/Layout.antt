-- ===== src/Efi/Layout.antt =====
-- The tables of src/hv/efi.rs as they lie in memory.
use mochivm.Prelude.{
  ℕ, ◌+◌, ◌-◌, ◌*◌, ◌/◌, Option, none, some, List, [], ◌∷◌, String, leb, if◌then◌else◌,
}
use text.Mathlib.Text.{◌==◌}

pub record Field : Type 0 where
  pub name : String
  pub size : ℕ
  pub align : ℕ

abbrev pub u64 : String → Field
u64 name = record { name = name; size = 8; align = 8 }

abbrev pub u32 : String → Field
u32 name = record { name = name; size = 4; align = 4 }

-- The layout of `repr(C)` and of C: each field at the next multiple of its alignment.
abbrev pub round_up : ℕ → ℕ → ℕ
round_up n a = (n + (a - 1)) / a * a

unfoldable pub offset_from : ℕ → List Field → String → Option ℕ
offset_from at [] name = none
offset_from at (f ∷ fs) name =
    let start = round_up at f.align in
    let later = offset_from (start + f.size) fs name in if f.name == name then some start else later

unfoldable pub offset_of : List Field → String → Option ℕ
unfolding offset_from
offset_of fs name = offset_from 0 fs name

abbrev pub end_from : ℕ → List Field → ℕ
end_from at [] = at
end_from at (f ∷ fs) = end_from (round_up at f.align + f.size) fs

abbrev pub greatest_align : List Field → ℕ
greatest_align [] = 1
greatest_align (f ∷ fs) = let rest = greatest_align fs in if leb f.align rest then rest else f.align

-- A struct as a field.
abbrev pub struct : String → List Field → Field
struct name fs = record {
  name = name;
  size = round_up (end_from 0 fs) (greatest_align fs);
  align = greatest_align fs;
}

abbrev pub efi_table_header : List Field
efi_table_header =
    u64 "signature" ∷ u32 "revision" ∷ u32 "header_size" ∷ u32 "crc32" ∷ u32 "reserved" ∷ []

abbrev pub efi_system_table : List Field
efi_system_table =
    struct "hdr" efi_table_header
    ∷ u64 "firmware_vendor"
    ∷ u32 "firmware_revision"
    ∷ u32 "_pad"
    ∷ u64 "con_in"
    ∷ u64 "con_in_ex"
    ∷ u64 "con_out"
    ∷ u64 "stderr"
    ∷ u64 "runtime_services"
    ∷ u64 "boot_services"
    ∷ u64 "number_of_table_entries"
    ∷ u64 "configuration_table"
    ∷ []

abbrev pub efi_boot_services : List Field
efi_boot_services =
    struct "hdr" efi_table_header
    ∷ u64 "raise_tpl"
    ∷ u64 "restore_tpl"
    ∷ u64 "allocate_pages"
    ∷ u64 "free_pages"
    ∷ u64 "get_memory_map"
    ∷ []

-- `(*p).name`, where the memory holds a word of 64 bits at an address.
unfoldable pub read_field : (ℕ → ℕ) → ℕ → List Field → String → Option ℕ
unfolding offset_of
read_field memory p fs name = elim (offset_of fs name) [
  | some o ↦ some (memory (p + o))
  | none ↦ none
]

-- The address that `allocate_pages` calls.
unfoldable pub allocate_from : (ℕ → ℕ) → Option ℕ → Option ℕ
allocate_from memory none = none
allocate_from memory (some bs) = read_field memory bs efi_boot_services "allocate_pages"

unfoldable pub allocate_pointer : (ℕ → ℕ) → (st : ℕ) → Option ℕ
allocate_pointer memory st =
    allocate_from memory (read_field memory st efi_system_table "boot_services")
