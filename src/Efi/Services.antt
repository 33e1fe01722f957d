-- ===== src/Efi/Services.antt =====
-- The pointers that src/hv/efi.rs reads from the firmware's tables, against the tables of the UEFI
-- specification.
use mochivm.Prelude.{ℕ, ◌+◌, ◌≡◌, refl, ◌∙◌, ap, some, List, [], ◌∷◌, String}
use mochivm.Efi.Layout.{
  Field, u64, u32, struct, offset_from, offset_of, efi_system_table, read_field, allocate_from,
  allocate_pointer,
}

-- UEFI 2.10, 4.2.1.
abbrev pub table_header : List Field
table_header =
    u64 "Signature" ∷ u32 "Revision" ∷ u32 "HeaderSize" ∷ u32 "CRC32" ∷ u32 "Reserved" ∷ []

-- UEFI 2.10, 4.3.1: EFI_SYSTEM_TABLE.
abbrev pub system_table : List Field
system_table =
    struct "Hdr" table_header
    ∷ u64 "FirmwareVendor"
    ∷ u32 "FirmwareRevision"
    ∷ u64 "ConsoleInHandle"
    ∷ u64 "ConIn"
    ∷ u64 "ConsoleOutHandle"
    ∷ u64 "ConOut"
    ∷ u64 "StandardErrorHandle"
    ∷ u64 "StdErr"
    ∷ u64 "RuntimeServices"
    ∷ u64 "BootServices"
    ∷ u64 "NumberOfTableEntries"
    ∷ u64 "ConfigurationTable"
    ∷ []

-- UEFI 2.10, 12.4.1: EFI_SIMPLE_TEXT_OUTPUT_PROTOCOL.
abbrev pub text_output : List Field
text_output =
    u64 "Reset"
    ∷ u64 "OutputString"
    ∷ u64 "TestString"
    ∷ u64 "QueryMode"
    ∷ u64 "SetMode"
    ∷ u64 "SetAttribute"
    ∷ u64 "ClearScreen"
    ∷ u64 "SetCursorPosition"
    ∷ u64 "EnableCursor"
    ∷ u64 "Mode"
    ∷ []

-- The memory holds a struct at an address, with these values of its fields.
pub record Holds (memory : ℕ → ℕ) (p : ℕ) (fs : List Field) (value : String → ℕ) : Type 0 where
  pub holds : (name : String) (o : ℕ) → offset_of fs name ≡ some o → memory (p + o) ≡ value name

-- Where the system table, and the text output that it names for standard error, are as the UEFI
-- specification has them, `allocate_pages` takes the pointer StdErr for that of the boot services,
-- and the address that it calls is that of SetAttribute of the standard error output.
pub allocate_pointer-SetAttribute :
    (memory : ℕ → ℕ) (st : ℕ) (table output : String → ℕ)
    → Holds memory st system_table table
    → Holds memory (table "StdErr") text_output output
    → (read_field memory st efi_system_table "boot_services" ≡ some (table "StdErr"))
      × (allocate_pointer memory st ≡ some (output "SetAttribute"))
unfolding allocate_pointer allocate_from read_field offset_of offset_from
allocate_pointer-SetAttribute memory st table output h k =
    let e : memory (st + 80) ≡ table "StdErr" = h.holds "StdErr" 80 refl in
    (
      ap (λ x. some x) e,
      ap (λ bs. some (memory (bs + 40))) e ∙ ap (λ x. some x) (k.holds "SetAttribute" 40 refl),
    )
