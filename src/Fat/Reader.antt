-- ===== src/Fat/Reader.antt =====
-- A reader of FAT32 volumes, by the published layout of the format and not by the code of
-- manager/src/fat.rs: the geometry from the boot sector, entries by name from a directory's
-- cluster, and a file's bytes along the chain of its clusters.
use mochivm.Prelude.{
  ℕ, zero, suc, ◌+◌, ◌-◌, ◌*◌, ◌/◌, ◌%◌, ◌^◌, ◌<◌, ◌≡◌, ◌∙◌, ap, fun_ext, arith, Bool, true, ◌&&◌,
  Option, none, some, List, [], ◌∷◌, String, codes, ltb, ◌==◌, if◌then◌else◌,
}
use mochivm.Buffer.Laws.{read16, read32}

-- The `n` bytes of `f` from `lo` on.
unfoldable pub view : (ℕ → ℕ) → (lo n : ℕ) → ℕ → ℕ
view f lo n i = if ltb i n then f (lo + i) else 0

pub view_ext :
    (f g : ℕ → ℕ) (lo lo' n : ℕ)
    → ((j : ℕ) → j < n → f (lo + j) ≡ g (lo' + j))
    → view f lo n ≡ view g lo' n
unfolding view
view_ext f g lo lo' n same = fun_ext (λ j. ground (arith, same j))

pub view_from :
    (f g : ℕ → ℕ) (lo n : ℕ) → ((j : ℕ) → j < n → f (lo + j) ≡ g j) → view f lo n ≡ view g 0 n
view_from f g lo n same =
    view_ext f g lo 0 n (λ j h. same j h ∙ ap g (let e : j ≡ 0 + j = omega arith in e))

pub record Geometry : Type 0 where
  pub sector_size : ℕ
  pub cluster_sectors : ℕ
  pub reserved : ℕ
  pub tables : ℕ
  pub table_sectors : ℕ
  pub root : ℕ
  pub sectors : ℕ
  pub info_sector : ℕ
  pub backup_sector : ℕ
  pub signature : ℕ

-- From the bytes of the boot sector.
unfoldable pub parse_geometry : (ℕ → ℕ) → Geometry
unfolding read16 read32
parse_geometry b = record {
  sector_size = read16 b 11;
  cluster_sectors = b 13;
  reserved = read16 b 14;
  tables = b 16;
  table_sectors = read32 b 36;
  root = read32 b 44;
  sectors = read32 b 32;
  info_sector = read16 b 48;
  backup_sector = read16 b 50;
  signature = read16 b 510;
}

unfoldable pub geometry_of : (ℕ → ℕ) → Geometry
unfolding view parse_geometry
geometry_of f = parse_geometry (view f 0 512)

unfoldable pub cluster_start : Geometry → ℕ → ℕ
cluster_start g c =
    (g.reserved + g.tables * g.table_sectors + (c - 2) * g.cluster_sectors) * g.sector_size

abbrev pub cluster_size : Geometry → ℕ
cluster_size g = g.cluster_sectors * g.sector_size

-- The entry of cluster `c` in table `k`; the top four bits are not part of it.
unfoldable pub table_entry : Geometry → (ℕ → ℕ) → (k c : ℕ) → ℕ
table_entry g f k c = read32 f ((g.reserved + k * g.table_sectors) * g.sector_size + c * 4) % 2 ^ 28

pub record Entry : Type 0 where
  pub attr : ℕ
  pub first : ℕ
  pub size : ℕ

abbrev pub same_name : (ℕ → ℕ) → ℕ → List ℕ → Bool
same_name b off [] = true
same_name b off (c ∷ cs) = b off == c && same_name b (off + 1) cs

-- The entry with a name of 11 bytes among the `left` slots from `slot` on. A slot that begins
-- with 0 ends the directory.
unfoldable pub find_entry : (ℕ → ℕ) → List ℕ → (left slot : ℕ) → Option Entry
unfolding read16 read32
find_entry b name zero slot = none
find_entry b name (suc left) slot =
    let off = slot * 32 in
    let here = some (record {
      attr = b (off + 11);
      first = read16 b (off + 20) * 65536 + read16 b (off + 26);
      size = read32 b (off + 28);
    }) in
    let rest = find_entry b name left (slot + 1) in
    if b off == 0 then none else if same_name b off name then here else rest

unfoldable pub lookup_in : Geometry → (ℕ → ℕ) → ℕ → String → Option Entry
unfolding cluster_start view find_entry
lookup_in g f c name =
    find_entry (view f (cluster_start g c) (cluster_size g)) (codes name) (cluster_size g / 32) 0

-- The cluster that stands `n` steps behind `c` in its chain.
unfoldable pub nth_cluster : Geometry → (ℕ → ℕ) → (n c : ℕ) → ℕ
nth_cluster g f zero c = c
nth_cluster g f (suc n) c = table_entry g f 0 (nth_cluster g f n c)

-- Byte `j` of the file whose chain begins at `c`.
unfoldable pub file_byte : Geometry → (ℕ → ℕ) → (c j : ℕ) → ℕ
file_byte g f c j =
    f (cluster_start g (nth_cluster g f (j / cluster_size g) c) + j % cluster_size g)

-- EFI/BOOT/BOOTX64.EFI, where firmware looks for a boot loader.
unfoldable pub find_boot_file : Geometry → (ℕ → ℕ) → Option Entry
find_boot_file g f = elim (lookup_in g f g.root "EFI        ") [
  | none ↦ none
  | some efi ↦ elim (lookup_in g f efi.first "BOOT       ") [
    | none ↦ none
    | some boot ↦ lookup_in g f boot.first "BOOTX64 EFI"
  ]
]
