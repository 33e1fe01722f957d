-- ===== src/Fat.antt =====
-- The FAT32 image builder, manager/src/fat.rs. The image is a `Buffer`; a slice index out of range
-- is the outcome `panic`. `usize` and `u32` values stay below their bounds but where `u32` is
-- written out.
pub mod Image
pub mod Table
pub mod Copies
pub mod Content
pub mod Reader
pub mod Directory
pub mod Built
pub mod RoundTrip
pub mod TooLarge
pub mod Correct
mod Examples
use mochivm.Prelude.{
  ℕ, zero, suc, ◌+◌, ◌-◌, ◌*◌, ◌/◌, ◌^◌, min, List, [], ◌∷◌, leb, ◌==◌, if◌then◌else◌, Outcome, ok,
  panic, out_of_fuel, ◌>>=◌, u32, u16,
}
use mochivm.Buffer.{Buffer, filled, literal, le16, le32, slice, copy_from_slice, store, with_slice}

abbrev pub bs : ℕ
bs = 512

abbrev pub total_sec : ℕ
total_sec = 69632

abbrev pub rsvd_sec : ℕ
rsvd_sec = 32

abbrev pub num_fats : ℕ
num_fats = 2

abbrev pub fat_sec : ℕ
fat_sec = 1024

abbrev pub data_start : ℕ
data_start = rsvd_sec + num_fats * fat_sec

abbrev pub root_clus : ℕ
root_clus = 2

abbrev pub efi_dir_clus : ℕ
efi_dir_clus = 3

abbrev pub boot_dir_clus : ℕ
boot_dir_clus = 4

abbrev pub file_start_clus : ℕ
file_start_clus = 5

abbrev pub eoc : ℕ
eoc = 0x0FFF_FFFF

-- The argument is the text's bytes.
unfoldable pub short_name : Buffer → Outcome Buffer
unfolding copy_from_slice
short_name s = if leb s.size 11 then copy_from_slice (filled 11 b' ') 0 s.size s else panic

unfoldable pub fat_83 : Buffer → Buffer → Outcome Buffer
unfolding copy_from_slice
fat_83 name ext = do n ← copy_from_slice (filled 11 b' ') 0 8 name; copy_from_slice n 8 11 ext

unfoldable pub put16 : Buffer → ℕ → ℕ → Outcome Buffer
unfolding copy_from_slice le16
put16 b off v = copy_from_slice b off (off + 2) (le16 v)

unfoldable pub put32 : Buffer → ℕ → ℕ → Outcome Buffer
unfolding copy_from_slice le32
put32 b off v = copy_from_slice b off (off + 4) (le32 v)

unfoldable pub write_boot_sector : Buffer → Outcome Buffer
unfolding store copy_from_slice put16 put32
write_boot_sector b = do
  b ← store b 0 0xEB
  b ← store b 1 0x3C
  b ← store b 2 0x90
  b ← copy_from_slice b 3 11 (literal "MOCHIVM ")
  b ← put16 b 11 512
  b ← store b 13 1
  b ← put16 b 14 (u16 rsvd_sec)
  b ← store b 16 2
  b ← put16 b 17 0
  b ← put16 b 19 0
  b ← store b 21 0xF8
  b ← put16 b 22 0
  b ← put16 b 24 0x20
  b ← put16 b 26 0x02
  b ← put32 b 28 0
  b ← put32 b 32 total_sec
  b ← put32 b 36 fat_sec
  b ← put16 b 40 0
  b ← put16 b 42 0
  b ← put32 b 44 root_clus
  b ← put16 b 48 1
  b ← put16 b 50 6
  b ← store b 64 0x80
  b ← store b 66 0x29
  b ← put32 b 67 0x1234_5678
  b ← copy_from_slice b 71 82 (literal "MOCHIVM    ")
  b ← copy_from_slice b 82 90 (literal "FAT32   ")
  b ← store b 510 0x55
  store b 511 0xAA

unfoldable pub write_fsinfo : Buffer → Outcome Buffer
unfolding put32
write_fsinfo b = do
  b ← put32 b 0 0x4161_5252
  b ← put32 b 484 0x6141_7272
  b ← put32 b 488 (total_sec - data_start)
  b ← put32 b 492 file_start_clus
  put32 b 508 0xAA55_0000

-- `for i in 0..nclusters`, at round `i` with `left` rounds to go.
unfoldable pub chain_loop : (nclusters left i : ℕ) → Buffer → Outcome Buffer
chain_loop nclusters zero i fat = ok fat
chain_loop nclusters (suc left) i fat =
    let clus = u32 (file_start_clus + i) in
    let next = if i + 1 == nclusters then eoc else u32 (clus + 1) in
    let off = u32 (clus * 4) in
    do fat ← copy_from_slice fat off (off + 4) (le32 next); chain_loop nclusters left (i + 1) fat

-- One FAT: the body of `for fat_idx in 0..NUM_FATS`, on the view `fat`.
unfoldable pub write_one_fat : ℕ → Buffer → Outcome Buffer
write_one_fat nclusters fat = do
  fat ← copy_from_slice fat 0 4 (le32 0x0FFF_FFF8)
  fat ← copy_from_slice fat 4 8 (le32 eoc)
  fat ← copy_from_slice fat 8 12 (le32 eoc)
  fat ← copy_from_slice fat 12 16 (le32 eoc)
  fat ← copy_from_slice fat 16 20 (le32 eoc)
  chain_loop nclusters nclusters 0 fat

unfoldable pub fat_loop : (nclusters left fat_idx : ℕ) → Buffer → Outcome Buffer
fat_loop nclusters zero fat_idx img = ok img
fat_loop nclusters (suc left) fat_idx img =
    let fat_start = (rsvd_sec + fat_idx * fat_sec) * bs in
    do
      img ← with_slice img fat_start (fat_start + fat_sec * bs) (write_one_fat nclusters)
      fat_loop nclusters left (fat_idx + 1) img

-- `file_len.div_ceil(BS) as u32`.
abbrev pub clusters_of : ℕ → ℕ
clusters_of file_len = u32 ((file_len + 511) / bs)

unfoldable pub write_fat : Buffer → ℕ → Outcome Buffer
write_fat img file_len = fat_loop (clusters_of file_len) num_fats 0 img

unfoldable pub dir_entry : Buffer → (attr first_clus size : ℕ) → Outcome Buffer
unfolding copy_from_slice store put16 put32
dir_entry name attr first_clus size = do
  e ← copy_from_slice (filled 32 0) 0 11 name
  e ← store e 11 attr
  e ← put16 e 20 (u16 (first_clus / 2 ^ 16))
  e ← put16 e 26 (u16 first_clus)
  put32 e 28 size

unfoldable pub sector_of : ℕ → ℕ
sector_of clus = u32 (data_start + u32 (clus + 2 ^ 32 - root_clus) * 1)

unfoldable pub write_cluster : Buffer → ℕ → Buffer → Outcome Buffer
unfolding copy_from_slice sector_of
write_cluster img clus content =
    let start = sector_of clus * bs in copy_from_slice img start (start + content.size) content

-- `for (i, e) in entries.iter().enumerate()`.
unfoldable pub entry_loop : List Buffer → ℕ → Buffer → Outcome Buffer
unfolding copy_from_slice
entry_loop [] i buf = ok buf
entry_loop (e ∷ entries) i buf = do
  buf ← copy_from_slice buf (i * 32) ((i + 1) * 32) e
  entry_loop entries (i + 1) buf

unfoldable pub write_dir : Buffer → ℕ → List Buffer → Outcome Buffer
unfolding entry_loop write_cluster
write_dir img clus entries = do buf ← entry_loop entries 0 (filled bs 0); write_cluster img clus buf

-- The `loop` of `write_file_chain`, with fuel.
unfoldable pub file_loop : Buffer → (fuel offset clus : ℕ) → Buffer → Outcome Buffer
file_loop content zero offset clus img = out_of_fuel
file_loop content (suc fuel) offset clus img =
    let start = sector_of clus * bs in
    do
      chunk ← slice content offset (min (offset + bs) content.size)
      img ← copy_from_slice img start (start + chunk.size) chunk
      let rest = file_loop content fuel (offset + bs) (u32 (clus + 1)) img
      if leb content.size (offset + bs) then ok img else rest

unfoldable pub write_file_chain : Buffer → Buffer → Outcome Buffer
write_file_chain img content = file_loop content (content.size / bs + 1) 0 file_start_clus img
