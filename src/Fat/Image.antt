-- ===== src/Fat/Image.antt =====
-- The whole image, and the function that writes it out: `write_fat32_disk` of
-- manager/src/fat.rs. Opening and writing the file is the parameter `save`, which gives the text
-- of the I/O error, if any.
use mochivm.Prelude.{ℕ, ◌*◌, Option, none, some, List, [], ◌∷◌, String, Outcome, ok, ◌>>=◌, u32}
use mochivm.Buffer.{Buffer, filled, literal, with_slice}
use mochivm.Fat.{
  bs, total_sec, root_clus, efi_dir_clus, boot_dir_clus, file_start_clus, short_name, fat_83,
  write_boot_sector, write_fsinfo, write_fat, dir_entry, write_dir, write_file_chain,
}
use Prim.Native.String.{◌++◌}

unfoldable pub root_entries : Outcome (List Buffer)
unfolding short_name dir_entry
root_entries = do
  dot ← short_name (literal ".")
  dotdot ← short_name (literal "..")
  efi ← short_name (literal "EFI")
  a ← dir_entry dot 0x10 root_clus 0
  b ← dir_entry dotdot 0x10 root_clus 0
  c ← dir_entry efi 0x10 efi_dir_clus 0
  ok (a ∷ b ∷ c ∷ [])

unfoldable pub efi_entries : Outcome (List Buffer)
unfolding short_name dir_entry
efi_entries = do
  dot ← short_name (literal ".")
  dotdot ← short_name (literal "..")
  boot ← short_name (literal "BOOT")
  a ← dir_entry dot 0x10 efi_dir_clus 0
  b ← dir_entry dotdot 0x10 root_clus 0
  c ← dir_entry boot 0x10 boot_dir_clus 0
  ok (a ∷ b ∷ c ∷ [])

unfoldable pub boot_entries : ℕ → Outcome (List Buffer)
unfolding short_name fat_83 dir_entry
boot_entries file_len = do
  dot ← short_name (literal ".")
  dotdot ← short_name (literal "..")
  file ← fat_83 (literal "BOOTX64 ") (literal "EFI")
  a ← dir_entry dot 0x10 boot_dir_clus 0
  b ← dir_entry dotdot 0x10 efi_dir_clus 0
  c ← dir_entry file 0x20 file_start_clus (u32 file_len)
  ok (a ∷ b ∷ c ∷ [])

unfoldable pub write_headers : Buffer → Outcome Buffer
unfolding with_slice write_boot_sector write_fsinfo
write_headers img = do
  img ← with_slice img 0 bs write_boot_sector
  img ← with_slice img (1 * bs) (2 * bs) write_fsinfo
  img ← with_slice img (6 * bs) (7 * bs) write_boot_sector
  with_slice img (7 * bs) (8 * bs) write_fsinfo

-- The three calls of `write_dir`.
unfoldable pub put_root : Buffer → Outcome Buffer
unfolding root_entries write_dir
put_root img = do entries ← root_entries; write_dir img root_clus entries

unfoldable pub put_efi : Buffer → Outcome Buffer
unfolding efi_entries write_dir
put_efi img = do entries ← efi_entries; write_dir img efi_dir_clus entries

unfoldable pub put_boot : ℕ → Buffer → Outcome Buffer
unfolding boot_entries write_dir
put_boot file_len img = do entries ← boot_entries file_len; write_dir img boot_dir_clus entries

unfoldable pub build_image : Buffer → Outcome Buffer
build_image efi = do
  img ← write_headers (filled (total_sec * bs) 0)
  img ← write_fat img efi.size
  img ← put_root img
  img ← put_efi img
  img ← put_boot efi.size img
  write_file_chain img efi

-- `none` is `Ok(())`, `some` the text of `Err`.
unfoldable pub write_fat32_disk : (save : Buffer → Option String) → Buffer → Outcome (Option String)
write_fat32_disk save efi = do
  img ← build_image efi
  ok (elim (save img) [ none ↦ none | some e ↦ some ("failed to write disk image: " ++ e) ])
