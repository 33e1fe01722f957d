-- ===== src/Fat/Examples.antt =====
-- Runs of the image builder of manager/src/fat.rs, and its theorems at a file of 1300 bytes.
use mochivm.Prelude.{
  ℕ, ◌+◌, ◌-◌, ◌*◌, ◌%◌, ◌≤◌, ◌≡◌, refl, arith, Outcome, ok, panic, ◌>>=◌, some, none,
}
use mochivm.Buffer.{Buffer, buffer, le32, slice, copy_from_slice, with_slice}
use mochivm.Fat.{
  bs, clusters_of, sector_of, chain_loop, write_one_fat, fat_loop, write_fat, file_loop,
  write_file_chain,
}
use mochivm.Fat.Image.{build_image, write_headers, put_root, put_efi, put_boot, write_fat32_disk}
use mochivm.Fat.Reader.{
  view, geometry_of, find_boot_file, table_entry, nth_cluster, file_byte, cluster_start,
}
use mochivm.Fat.RoundTrip.{volume, boot_file}
use mochivm.Fat.Correct.{
  expected_entry, build_image-find_boot_file, build_image-tables, build_image-chain,
  build_image-geometry, build_image-empty, write_fat32_disk-panic,
}

abbrev loader : Buffer
loader = buffer 1300 (λ i. i % 256)

abbrev nothing : Buffer
nothing = buffer 0 (λ i. 0)

abbrev huge : Buffer
huge = buffer 40000000 (λ i. 0)

image_byte : ℕ → Outcome ℕ
unfolding build_image write_headers write_fat put_root put_efi put_boot write_file_chain file_loop
    fat_loop write_one_fat chain_loop with_slice copy_from_slice le32 slice sector_of
image_byte i = do img ← build_image loader; ok (img.byte i)

file_byte_300 : image_byte (2083 * bs + 300) ≡ ok 44
unfolding image_byte
file_byte_300 = refl

entry_of_cluster_5 : image_byte (32 * bs + 20) ≡ ok 6
unfolding image_byte
entry_of_cluster_5 = refl

boot_mark : image_byte 511 ≡ ok 0xAA
unfolding image_byte
boot_mark = refl

build_image-find_boot_file_example :
    (out : Buffer) × (build_image loader ≡ ok out)
    × (find_boot_file (geometry_of out.byte) out.byte ≡ some (boot_file 1300))
    × (file_byte (geometry_of out.byte) out.byte 5 1299 ≡ 19)
build_image-find_boot_file_example =
    build_image-find_boot_file loader (omega arith) 1299 (omega arith)

build_image-tables_example :
    (out : Buffer) × (build_image loader ≡ ok out)
    × (table_entry (geometry_of out.byte) out.byte 1 6 ≡ expected_entry (clusters_of 1300) 6)
build_image-tables_example = build_image-tables loader (omega arith) 1 6 (omega arith) (omega arith)

build_image-chain_example :
    (out : Buffer) × (build_image loader ≡ ok out)
    × (nth_cluster (geometry_of out.byte) out.byte 2 5 ≡ 5 + 2)
    × (cluster_start (geometry_of out.byte) (5 + 2) ≡ sector_of (5 + 2) * bs)
build_image-chain_example = build_image-chain loader (omega arith) 2 (omega arith)

build_image-geometry_example :
    (out : Buffer) × (build_image loader ≡ ok out)
    × (geometry_of out.byte ≡ volume)
    × (view out.byte (6 * bs) bs ≡ view out.byte 0 bs)
    × (view out.byte (7 * bs) bs ≡ view out.byte bs bs)
    × (out.size ≡ volume.sectors * volume.sector_size)
    × (65525 ≤ volume.sectors - (volume.reserved + volume.tables * volume.table_sectors))
build_image-geometry_example = build_image-geometry loader (omega arith)

build_image-empty_example :
    (out : Buffer) × (build_image nothing ≡ ok out)
    × (find_boot_file (geometry_of out.byte) out.byte ≡ some (boot_file 0))
    × (table_entry (geometry_of out.byte) out.byte 1 5 ≡ 0)
build_image-empty_example = build_image-empty nothing 1 refl (omega arith)

write_fat32_disk-panic_example : write_fat32_disk (λ img. none) huge ≡ panic
write_fat32_disk-panic_example = write_fat32_disk-panic (λ img. none) huge (omega arith)
