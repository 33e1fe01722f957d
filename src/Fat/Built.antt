-- ===== src/Fat/Built.antt =====
-- What `build_image` makes, region by region.
use mochivm.Prelude.{
  ℕ, ◌+◌, ◌/◌, ◌≤◌, ◌<◌, ◌≡◌, refl, ◌∙◌, sym, arith, Outcome, ok, ◌>>=◌, ltb, leb, true, false,
}
use mochivm.Buffer.{Buffer, filled}
use mochivm.Fat.{bs, num_fats, clusters_of, write_fat, write_file_chain}
use mochivm.Fat.Image.{write_headers, build_image, put_root, put_efi, put_boot}
use mochivm.Fat.Table.{IsTable, IsTable-ext}
use mochivm.Fat.Copies.{image_size, table_start, table_at, FatWritten, fat_loop-FatWritten}
use mochivm.Fat.Content.{file_base, file_capacity, FileWritten, file_loop-FileWritten}
use mochivm.Fat.Directory.{root_dir, efi_dir, boot_dir, Placed, write_root, write_efi, write_boot}

-- The boot sector, the FSInfo sector and their backups, in an image of zeros.
unfoldable pub headers : Buffer
unfolding write_headers
headers = elim (write_headers (filled image_size 0)) [ ok b ↦ b | _ ↦ filled 0 0 ]

pub headers-ok : write_headers (filled image_size 0) ≡ ok headers
unfolding headers
headers-ok = refl

pub headers-size : headers.size ≡ image_size
unfolding headers
headers-size = refl

headers-zero : (i : ℕ) → 4096 ≤ i → headers.byte i ≡ 0
unfolding headers
headers-zero i h =
    let a : ltb i 4096 ≡ false = ground arith in
    let b : ltb i 3584 ≡ false = ground arith in
    let c : ltb i 1024 ≡ false = ground arith in
    let d : ltb i 512 ≡ false = ground arith in
    let e : leb 3584 i ≡ true = ground arith in
    let f : leb 3072 i ≡ true = ground arith in
    let g : leb 512 i ≡ true = ground arith in
    let k : leb 0 i ≡ true = ground arith in rw (a, b, c, d, e, f, g, k)

pub record Built (efi : Buffer) (out : Buffer) : Type 0 where
  pub size : out.size ≡ image_size
  pub head : (i : ℕ) → i < table_start 0 → out.byte i ≡ headers.byte i
  pub tables : (k : ℕ) → k < num_fats → IsTable (clusters_of efi.size) (λ i. 0) (table_at out k)
  pub root : (j : ℕ) → j < bs → out.byte (1064960 + j) ≡ root_dir.byte j
  pub efi_sector : (j : ℕ) → j < bs → out.byte (1065472 + j) ≡ efi_dir.byte j
  pub boot : (j : ℕ) → j < bs → out.byte (1065984 + j) ≡ (boot_dir efi.size).byte j
  pub file : (j : ℕ) → j < efi.size → out.byte (file_base + j) ≡ efi.byte j
  pub tail : (i : ℕ) → file_base + efi.size ≤ i → out.byte i ≡ 0

pub record BuiltImage (efi : Buffer) (result : Outcome Buffer) : Type 0 where
  pub out : Buffer
  pub returns : result ≡ ok out
  pub built : Built efi out

pub build_steps :
    (efi : Buffer)
    → build_image efi ≡ (do
      img ← write_headers (filled image_size 0)
      img ← write_fat img efi.size
      img ← put_root img
      img ← put_efi img
      img ← put_boot efi.size img
      write_file_chain img efi)
unfolding build_image
build_steps efi = refl

module _ (efi : Buffer) (fits : efi.size ≤ file_capacity) where
  fat_step : FatWritten (clusters_of efi.size) headers (write_fat headers efi.size)
  unfolding write_fat
  fat_step = fat_loop-FatWritten (clusters_of efi.size) headers headers-size (omega arith)

  fat_size : fat_step.out.size ≡ image_size
  fat_size = fat_step.frame.same_size ∙ headers-size

  root_step : Placed 1064960 root_dir fat_step.out (put_root fat_step.out)
  root_step = write_root fat_step.out (omega (arith, fat_size))

  root_size : root_step.out.size ≡ image_size
  root_size = root_step.frame.same_size ∙ fat_size

  efi_step : Placed 1065472 efi_dir root_step.out (put_efi root_step.out)
  efi_step = write_efi root_step.out (omega (arith, root_size))

  efi_size : efi_step.out.size ≡ image_size
  efi_size = efi_step.frame.same_size ∙ root_size

  boot_step : Placed 1065984 (boot_dir efi.size) efi_step.out (put_boot efi.size efi_step.out)
  boot_step = write_boot efi_step.out (omega (arith, efi_size)) efi.size

  boot_size : boot_step.out.size ≡ image_size
  boot_size = boot_step.frame.same_size ∙ efi_size

  file_step : FileWritten efi 0 boot_step.out (write_file_chain boot_step.out efi)
  unfolding write_file_chain
  file_step =
      file_loop-FileWritten efi (efi.size / bs + 1) 0 boot_step.out (omega arith) (omega arith)
        boot_size fits

  build_returns : build_image efi ≡ ok file_step.out
  build_returns =
      build_steps efi
      ∙ rw (
        headers-ok, fat_step.returns, root_step.returns, efi_step.returns, boot_step.returns,
        file_step.returns,
      )

  -- What the directories and the file leave alone.
  below_dirs : (i : ℕ) → i < 1064960 → file_step.out.byte i ≡ fat_step.out.byte i
  below_dirs i h =
      file_step.frame.outside i (omega arith)
      ∙ boot_step.frame.outside i (omega arith)
      ∙ efi_step.frame.outside i (omega arith)
      ∙ root_step.frame.outside i (omega arith)

  behind_dirs : (i : ℕ) → file_base + efi.size ≤ i → file_step.out.byte i ≡ fat_step.out.byte i
  behind_dirs i h =
      file_step.frame.outside i (omega arith)
      ∙ boot_step.frame.outside i (omega arith)
      ∙ efi_step.frame.outside i (omega arith)
      ∙ root_step.frame.outside i (omega arith)

  built_tables :
      (k : ℕ) → k < num_fats → IsTable (clusters_of efi.size) (λ i. 0) (table_at file_step.out k)
  built_tables k h =
      IsTable-ext (omega arith) (λ j b. headers-zero (table_start k + j) (omega arith))
        (λ j b. sym (below_dirs (table_start k + j) (omega arith))) (fat_step.tables k h)

  pub build_image-BuiltImage : BuiltImage efi (build_image efi)
  build_image-BuiltImage = record {
    out = file_step.out;
    returns = build_returns;
    built = record {
      size = file_step.frame.same_size ∙ boot_size;
      head = λ i h. below_dirs i (omega arith) ∙ fat_step.frame.outside i (omega arith);
      tables = built_tables;
      root = λ j h.
          file_step.frame.outside (1064960 + j) (omega arith)
          ∙ boot_step.frame.outside (1064960 + j) (omega arith)
          ∙ efi_step.frame.outside (1064960 + j) (omega arith)
          ∙ root_step.bytes j h;
      efi_sector = λ j h.
          file_step.frame.outside (1065472 + j) (omega arith)
          ∙ boot_step.frame.outside (1065472 + j) (omega arith)
          ∙ efi_step.bytes j h;
      boot = λ j h. file_step.frame.outside (1065984 + j) (omega arith) ∙ boot_step.bytes j h;
      file = λ j h. file_step.bytes j (omega arith) h;
      tail = λ i h.
          behind_dirs i h ∙ fat_step.frame.outside i (omega arith) ∙ headers-zero i (omega arith);
    };
  }
