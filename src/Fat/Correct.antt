-- ===== src/Fat/Correct.antt =====
-- The properties of manager/src/fat.rs.
use mochivm.Prelude.{
  ℕ, zero, suc, ◌+◌, ◌-◌, ◌*◌, ◌^◌, ◌≤◌, ◌<◌, ◌≡◌, ◌∙◌, ap, arith, ok, panic, Option, some, String,
  if◌then◌else◌, ltb, Bool-cases, inl, inr,
}
use mochivm.Buffer.{Buffer}
use mochivm.Fat.{bs, eoc, clusters_of, sector_of}
use mochivm.Fat.Image.{build_image, write_fat32_disk}
use mochivm.Fat.Table.{next_of}
use mochivm.Fat.Content.{file_capacity}
use mochivm.Fat.Built.{Built, build_image-BuiltImage}
use mochivm.Fat.Reader.{
  view, geometry_of, cluster_start, table_entry, nth_cluster, file_byte, find_boot_file,
}
use mochivm.Fat.RoundTrip.{
  volume, boot_file, geometry-volume, backup-same, find_boot_file-volume, table_entry-chain,
  table_entry-free, table_entry-reserved, table_entry-media, info-same, nth_cluster-chain,
  file_byte-file,
}
use mochivm.Fat.TooLarge.{build_image-panic}

-- What a table has for cluster `c`, for a file of `n` clusters.
unfoldable pub expected_entry : (n c : ℕ) → ℕ
expected_entry n zero = 0x0FFF_FFF8
expected_entry n (suc c) =
    if ltb (suc c) 5 then eoc else (if ltb (suc c) (5 + n) then next_of n (suc c) else 0)

entries :
    {efi out : Buffer} (b : Built efi out)
    → efi.size ≤ file_capacity
    → (k c : ℕ) → k < 2
    → c < 131072
    → table_entry volume out.byte k c ≡ expected_entry (clusters_of efi.size) c
unfolding expected_entry
entries b fits k zero h p = table_entry-media b fits k h
entries {efi} b fits k (suc c) h p = elim (Bool-cases (ltb (suc c) 5)) [
  | inl low ↦ rw low (table_entry-reserved b fits k (suc c) h (omega arith) (ground arith))
  | inr high ↦ rw high (elim (Bool-cases (ltb (suc c) (5 + clusters_of efi.size))) [
    | inl used ↦ rw used (table_entry-chain b fits k (suc c) h (ground arith) (ground arith))
    | inr past ↦ rw past (table_entry-free b fits k (suc c) h (ground arith) p)
  ])
]

sector_start : (n : ℕ) → n < 2 ^ 31 → cluster_start volume (5 + n) ≡ sector_of (5 + n) * bs
unfolding cluster_start sector_of
sector_start n h = omega arith

module _ (efi : Buffer) (fits : efi.size ≤ file_capacity) where
  img : Buffer
  img = (build_image-BuiltImage efi fits).out

  img-Built : Built efi img
  unfolding img
  img-Built = (build_image-BuiltImage efi fits).built

  -- For a file that fits the volume, `build_image` returns an image in which a FAT32 reader finds
  -- EFI/BOOT/BOOTX64.EFI by its path, with the file's size, and reads each byte of the file at
  -- its place along the chain of clusters.
  pub build_image-find_boot_file :
      (j : ℕ)
      → j < efi.size
      → (out : Buffer) × (build_image efi ≡ ok out)
        × (find_boot_file (geometry_of out.byte) out.byte ≡ some (boot_file efi.size))
        × (file_byte (geometry_of out.byte) out.byte 5 j ≡ efi.byte j)
  unfolding img
  build_image-find_boot_file j h = (
    img,
    (build_image-BuiltImage efi fits).returns,
    rw (geometry-volume img-Built) (find_boot_file-volume img-Built (omega arith)),
    rw (geometry-volume img-Built) (file_byte-file img-Built fits j h),
  )

  -- For a file that fits the volume, both tables of the image hold the media entry, the end marks
  -- of the reserved and the directory clusters, the chain 5, 6, ... of the file with an end mark at
  -- its last cluster, and free entries behind it, up to the tables' end.
  pub build_image-tables :
      (k c : ℕ)
      → k < 2
      → c < 131072
      → (out : Buffer) × (build_image efi ≡ ok out)
        × (table_entry (geometry_of out.byte) out.byte k c
            ≡ expected_entry (clusters_of efi.size) c)
  unfolding img
  build_image-tables k c h p = (
    img,
    (build_image-BuiltImage efi fits).returns,
    rw (geometry-volume img-Built) (entries img-Built fits k c h p),
  )

  -- For a file that fits the volume, the chain that starts at cluster 5 visits the clusters 5, 6,
  -- ... in order, one for each 512 bytes begun, and the reader's position of each is the sector
  -- that `sector_of` gives it.
  pub build_image-chain :
      (n : ℕ)
      → n < clusters_of efi.size
      → (out : Buffer) × (build_image efi ≡ ok out)
        × (nth_cluster (geometry_of out.byte) out.byte n 5 ≡ 5 + n)
        × (cluster_start (geometry_of out.byte) (5 + n) ≡ sector_of (5 + n) * bs)
  unfolding img
  build_image-chain n h = (
    img,
    (build_image-BuiltImage efi fits).returns,
    rw (geometry-volume img-Built) (nth_cluster-chain img-Built fits n h),
    rw (geometry-volume img-Built) (sector_start n (omega arith)),
  )

  -- For a file that fits the volume, the image declares 67552 data clusters, at least the 65525
  -- that make a volume FAT32, its sectors 6 and 7 are byte for byte its sectors 0 and 1, and it has
  -- the size that it declares.
  pub build_image-geometry :
      (out : Buffer) × (build_image efi ≡ ok out)
      × (geometry_of out.byte ≡ volume)
      × (view out.byte (6 * bs) bs ≡ view out.byte 0 bs)
      × (view out.byte (7 * bs) bs ≡ view out.byte bs bs)
      × (out.size ≡ volume.sectors * volume.sector_size)
      × (65525 ≤ volume.sectors - (volume.reserved + volume.tables * volume.table_sectors))
  unfolding img
  build_image-geometry = (
    img,
    (build_image-BuiltImage efi fits).returns,
    geometry-volume img-Built,
    backup-same img-Built,
    info-same img-Built,
    img-Built.size,
    omega arith,
  )

-- A file of more than 34585088 bytes makes `write_fat32_disk` panic, whatever `save` does: no
-- `Err` is returned and nothing is saved.
pub write_fat32_disk-panic :
    (save : Buffer → Option String) (efi : Buffer)
    → 34585088 < efi.size
    → write_fat32_disk save efi ≡ panic
unfolding write_fat32_disk
write_fat32_disk-panic save efi h = rw (build_image-panic efi h)

-- For an empty file the directory entry names cluster 5 as the first one, and both tables have
-- cluster 5 as free.
pub build_image-empty :
    (efi : Buffer) (k : ℕ)
    → efi.size ≡ 0
    → k < 2
    → (out : Buffer) × (build_image efi ≡ ok out)
      × (find_boot_file (geometry_of out.byte) out.byte ≡ some (boot_file 0))
      × (table_entry (geometry_of out.byte) out.byte k 5 ≡ 0)
build_image-empty efi k e h =
    let fits : efi.size ≤ file_capacity = omega arith in
    let b = build_image-BuiltImage efi fits in
    (
      b.out,
      b.returns,
      rw (geometry-volume b.built)
          (find_boot_file-volume b.built (omega arith) ∙ ap (λ n. some (boot_file n)) e),
      rw (geometry-volume b.built)
          (table_entry-free b.built fits k 5 h (omega arith) (omega arith)),
    )
