-- ===== src/Fat/Directory.antt =====
-- The three directories of the image, as the reader sees them.
use mochivm.Prelude.{ℕ, ◌+◌, ◌≤◌, ◌<◌, ◌≡◌, refl, arith, Outcome, ok, ◌>>=◌, List}
use mochivm.Buffer.{Buffer, filled, splice, copy_from_slice}
use mochivm.Buffer.Laws.{copy-ok, Frame, Frame-widen, splice-Frame, splice-inside}
use mochivm.Fat.{bs, entry_loop}
use mochivm.Fat.Image.{root_entries, efi_entries, boot_entries, put_root, put_efi, put_boot}

-- The cluster that a list of entries makes.
unfoldable cluster_of : Outcome (List Buffer) → Outcome Buffer
unfolding entry_loop
cluster_of es = do entries ← es; entry_loop entries 0 (filled bs 0)

abbrev value : Outcome Buffer → Buffer
value r = elim r [ ok b ↦ b | _ ↦ filled 0 0 ]

unfoldable pub root_dir : Buffer
unfolding cluster_of root_entries
root_dir = value (cluster_of root_entries)

unfoldable pub efi_dir : Buffer
unfolding cluster_of efi_entries
efi_dir = value (cluster_of efi_entries)

unfoldable pub boot_dir : ℕ → Buffer
unfolding cluster_of boot_entries
boot_dir file_len = value (cluster_of (boot_entries file_len))

-- The directory `dir` stands in the sector at `lo`, and nothing else has changed.
pub record Placed (lo : ℕ) (dir img : Buffer) (result : Outcome Buffer) : Type 0 where
  pub out : Buffer
  pub returns : result ≡ ok out
  pub frame : Frame lo (lo + bs) img out
  pub bytes : (j : ℕ) → j < bs → out.byte (lo + j) ≡ dir.byte j

place :
    (lo : ℕ) (dir img : Buffer)
    → dir.size ≡ bs
    → (lo + bs ≤ img.size)
    → Placed lo dir img (copy_from_slice img lo (lo + bs) dir)
place lo dir img e h = rw (copy-ok img lo (lo + bs) dir (omega arith) h (omega arith)) (record {
  out = splice img lo dir;
  returns = refl;
  frame = Frame-widen lo (lo + bs) (splice-Frame img lo dir) (omega arith) (omega arith);
  bytes = λ j p. splice-inside img lo dir j (omega arith);
})

module _ (img : Buffer) (room : 1066496 ≤ img.size) where
  pub write_root : Placed 1064960 root_dir img (put_root img)
  unfolding root_dir put_root
  write_root = place 1064960 root_dir img refl (omega arith)

  pub write_efi : Placed 1065472 efi_dir img (put_efi img)
  unfolding efi_dir put_efi
  write_efi = place 1065472 efi_dir img refl (omega arith)

  pub write_boot : (file_len : ℕ) → Placed 1065984 (boot_dir file_len) img (put_boot file_len img)
  unfolding boot_dir put_boot
  write_boot file_len = place 1065984 (boot_dir file_len) img refl (omega arith)
