-- ===== src/Fat/RoundTrip.antt =====
-- A FAT32 reader on the image of manager/src/fat.rs.
use mochivm.Prelude.{
  ℕ, zero, suc, ◌+◌, ◌*◌, ◌/◌, ◌%◌, ◌^◌, ◌≤◌, ◌<◌, ◌≡◌, refl, ◌∙◌, sym, ap, arith, Option, some,
  codes, agree, agree_sound, true, String,
}
use native.Mathlib.Nat.{mod-eq_of_lt}
use mochivm.Buffer.{Buffer}
use mochivm.Buffer.Laws.{read32, read32-shift}
use mochivm.Fat.{bs, eoc, clusters_of}
use mochivm.Fat.Table.{next_of, next_of-lt}
use mochivm.Fat.Copies.{table_start}
use mochivm.Fat.Content.{file_base, file_capacity}
use mochivm.Fat.Directory.{root_dir, efi_dir, boot_dir}
use mochivm.Fat.Built.{headers, Built}
use mochivm.Fat.Reader.{
  Geometry, Entry, view, view_ext, view_from, parse_geometry, geometry_of, cluster_start,
  table_entry, find_entry, lookup_in, nth_cluster, file_byte, find_boot_file,
}

abbrev pub volume : Geometry
volume = record {
  sector_size = 512;
  cluster_sectors = 1;
  reserved = 32;
  tables = 2;
  table_sectors = 1024;
  root = 2;
  sectors = 69632;
  info_sector = 1;
  backup_sector = 6;
  signature = 0xAA55;
}

abbrev pub boot_file : ℕ → Entry
boot_file size = record { attr = 0x20; first = 5; size = size }

headers-volume : parse_geometry (view headers.byte 0 512) ≡ volume
unfolding parse_geometry view headers
headers-volume = refl

sectors_agree : agree 512 (λ i. headers.byte (3072 + i)) headers.byte ≡ true
unfolding agree headers
sectors_agree = refl

headers-backup : view headers.byte 3072 512 ≡ view headers.byte 0 512
unfolding view headers
headers-backup =
    view_from headers.byte headers.byte 3072 512
      (λ j h. agree_sound 512 (λ i. headers.byte (3072 + i)) headers.byte j sectors_agree h)

info_agree : agree 512 (λ i. headers.byte (3584 + i)) (λ i. headers.byte (512 + i)) ≡ true
unfolding agree headers
info_agree = refl

headers-info : view headers.byte 3584 512 ≡ view headers.byte 512 512
headers-info = view_ext headers.byte headers.byte 3584 512 512 (λ j h.
    agree_sound 512 (λ i. headers.byte (3584 + i)) (λ i. headers.byte (512 + i)) j info_agree h)

root_dir-efi :
    find_entry (view root_dir.byte 0 512) (codes "EFI        ") 16 0
    ≡ some (record { attr = 0x10; first = 3; size = 0 })
unfolding find_entry view root_dir
root_dir-efi = refl

efi_dir-boot :
    find_entry (view efi_dir.byte 0 512) (codes "BOOT       ") 16 0
    ≡ some (record { attr = 0x10; first = 4; size = 0 })
unfolding find_entry view efi_dir
efi_dir-boot = refl

boot_dir-file :
    (n : ℕ)
    → n < 2 ^ 32
    → find_entry (view (boot_dir n).byte 0 512) (codes "BOOTX64 EFI") 16 0 ≡ some (boot_file n)
unfolding find_entry view boot_dir
boot_dir-file n h = rw (joined n h)
  where
    joined :
        (n : ℕ)
        → n < 2 ^ 32
        → n % 4294967296 % 256
            + n % 4294967296 / 256 % 256 * 256
            + n % 4294967296 / 65536 % 256 * 65536
            + n % 4294967296 / 16777216 % 256 * 16777216
          ≡ n
    joined n h = omega arith

module _ {efi out : Buffer} (b : Built efi out) where
  header_view : (lo : ℕ) → lo + 512 ≤ 16384 → view out.byte lo 512 ≡ view headers.byte lo 512
  header_view lo k = view_ext out.byte headers.byte lo lo 512 (λ j h. b.head (lo + j) (omega arith))

  pub geometry-volume : geometry_of out.byte ≡ volume
  unfolding geometry_of
  geometry-volume = ap parse_geometry (header_view 0 (omega arith)) ∙ headers-volume

  pub backup-same : view out.byte 3072 512 ≡ view out.byte 0 512
  backup-same = header_view 3072 (omega arith) ∙ headers-backup ∙ sym (header_view 0 (omega arith))

  pub info-same : view out.byte 3584 512 ≡ view out.byte 512 512
  info-same = header_view 3584 (omega arith) ∙ headers-info ∙ sym (header_view 512 (omega arith))

  -- A name is found in a directory's cluster if it is found in the entries placed there.
  lookup_from :
      (c lo : ℕ) (dir : Buffer) (name : String) {r : Option Entry}
      → cluster_start volume c ≡ lo
      → ((j : ℕ) → j < bs → out.byte (lo + j) ≡ dir.byte j)
      → find_entry (view dir.byte 0 512) (codes name) 16 0 ≡ r
      → lookup_in volume out.byte c name ≡ r
  lookup_from c lo dir name e same found =
      unfold lookup_in in
      (rw e (
        ap (λ v. find_entry v (codes name) 16 0) (view_from out.byte dir.byte lo 512 same) ∙ found))

  pub find_boot_file-volume :
      efi.size < 2 ^ 32 → find_boot_file volume out.byte ≡ some (boot_file efi.size)
  unfolding find_boot_file
  find_boot_file-volume h =
      let root =
        lookup_from 2 1064960 root_dir "EFI        " (unfold cluster_start in refl) b.root
          root_dir-efi in
      let efi_sector =
        lookup_from 3 1065472 efi_dir "BOOT       " (unfold cluster_start in refl) b.efi_sector
          efi_dir-boot in
      let boot =
        lookup_from 4 1065984 (boot_dir efi.size) "BOOTX64 EFI" (unfold cluster_start in refl)
          b.boot (boot_dir-file efi.size h) in
      rw (root, find_boot_file) (rw (efi_sector, find_boot_file) boot)

  module _ (fits : efi.size ≤ file_capacity) where
    pub table_entry-chain :
        (k c : ℕ)
        → k < 2
        → 5 ≤ c
        → c < 5 + clusters_of efi.size
        → table_entry volume out.byte k c ≡ next_of (clusters_of efi.size) c
    table_entry-chain k c h p q =
        let entry =
          sym (read32-shift out.byte (table_start k) (c * 4)) ∙ (b.tables k h).chain c p q in
        unfold table_entry in
        rw entry (mod-eq_of_lt (next_of-lt (clusters_of efi.size) c (omega arith)))

    pub table_entry-free :
        (k c : ℕ)
        → k < 2
        → 5 + clusters_of efi.size ≤ c
        → c < 131072
        → table_entry volume out.byte k c ≡ 0
    table_entry-free k c h p q =
        let entry =
          sym (read32-shift out.byte (table_start k) (c * 4)) ∙ (b.tables k h).free c p q in
        unfold table_entry in rw entry (unfold read32 in refl)

    pub table_entry-reserved :
        (k c : ℕ) → k < 2 → 1 ≤ c → c < 5 → table_entry volume out.byte k c ≡ eoc
    table_entry-reserved k c h p q =
        let entry =
          sym (read32-shift out.byte (table_start k) (c * 4)) ∙ (b.tables k h).reserved c p q in
        unfold table_entry in rw entry refl

    pub table_entry-media : (k : ℕ) → k < 2 → table_entry volume out.byte k 0 ≡ 0x0FFF_FFF8
    table_entry-media k h =
        let entry = sym (read32-shift out.byte (table_start k) 0) ∙ (b.tables k h).media in
        unfold table_entry in rw entry refl

    pub nth_cluster-chain :
        (n : ℕ) → n < clusters_of efi.size → nth_cluster volume out.byte n 5 ≡ 5 + n
    unfolding nth_cluster
    nth_cluster-chain zero h = refl
    nth_cluster-chain (suc n) h =
        rw
          (
            nth_cluster-chain n (omega arith),
            table_entry-chain 0 (5 + n) (omega arith) (omega arith) (omega arith),
          )
          (ground arith)

    pub file_byte-file : (j : ℕ) → j < efi.size → file_byte volume out.byte 5 j ≡ efi.byte j
    file_byte-file j p =
        let at : cluster_start volume (5 + j / 512) + j % 512 ≡ file_base + j =
          unfold cluster_start in omega arith in
        unfold file_byte in rw (nth_cluster-chain (j / 512) (omega arith), at) (b.file j p)
