-- ===== src/Fat/TooLarge.antt =====
-- A file that the volume of manager/src/fat.rs has no room for.
use mochivm.Prelude.{
  ℕ, zero, suc, ◌+◌, ◌*◌, ◌/◌, ◌≤◌, ◌<◌, ◌≡◌, ◌∙◌, arith, panic, Bool-cases, u32, ltb, inl, inr,
}
use mochivm.Buffer.{Buffer, buffer, splice, le32, with_slice}
use mochivm.Buffer.Laws.{copy-panic, slice-ok}
use mochivm.Fat.{
  bs, file_start_clus, clusters_of, chain_loop, write_one_fat, fat_loop, write_fat,
  write_file_chain,
}
use mochivm.Fat.Table.{
  chain_loop-suc, head_entries, write_one_fat-head, head_entries-Frame, table_size, next_of,
}
use mochivm.Fat.Copies.{image_size, FatWritten, fat_loop-FatWritten}
use mochivm.Fat.Content.{file_capacity, file_loop-too_large}
use mochivm.Fat.Directory.{write_root, write_efi, write_boot}
use mochivm.Fat.Image.{build_image}
use mochivm.Fat.Built.{headers, headers-ok, headers-size, build_steps}

-- The chain runs off the end of the table.
chain_loop-too_long :
    (n left i : ℕ) (fat : Buffer)
    → i + left ≡ n
    → i ≤ 131067
    → 131067 < n
    → fat.size ≡ table_size
    → chain_loop n left i fat ≡ panic
chain_loop-too_long n zero i fat e p q s = absurd (omega arith)
chain_loop-too_long n (suc left) i fat e p q s = elim (Bool-cases (ltb i 131067)) [
  | inl room ↦ rw (chain_loop-suc n left i fat (ground arith) (omega arith)) (
      chain_loop-too_long n left (i + 1) (splice fat ((5 + i) * 4) (le32 (next_of n (5 + i))))
        (omega arith) (ground arith) q (unfold splice in s))
  | inr full ↦
      let clus : u32 (file_start_clus + i) ≡ 5 + i = omega arith in
      let off : u32 ((5 + i) * 4) ≡ (5 + i) * 4 = omega arith in
      unfold chain_loop in
      rw (clus, off, copy-panic fat ((5 + i) * 4) ((5 + i) * 4 + 4) _ (ground arith))
]

write_one_fat-too_long :
    (n : ℕ) (f : ℕ → ℕ) → 131067 < n → write_one_fat n (buffer table_size f) ≡ panic
write_one_fat-too_long n f h =
    write_one_fat-head n f
    ∙ chain_loop-too_long n n 0 (head_entries f) (omega arith) (omega arith) h
        ((head_entries-Frame f).same_size)

write_fat-too_long :
    (img : Buffer) (len : ℕ)
    → img.size ≡ image_size
    → 131067 < clusters_of len
    → write_fat img len ≡ panic
write_fat-too_long img len size h =
    unfold write_fat fat_loop with_slice in
    rw (
      slice-ok img 16384 (16384 + 524288) (omega arith) (omega arith),
      write_one_fat-too_long (clusters_of len) (λ i. img.byte (16384 + i)) h,
    )

-- A table that is long enough takes the chain, and then the clusters run out.
file_too_large :
    (efi : Buffer)
    → file_capacity < efi.size
    → FatWritten (clusters_of efi.size) headers (write_fat headers efi.size)
    → build_image efi ≡ panic
file_too_large efi h fat =
    let fat_size = fat.frame.same_size ∙ headers-size in
    let root = write_root fat.out (omega (arith, fat_size)) in
    let root_size = root.frame.same_size ∙ fat_size in
    let dir = write_efi root.out (omega (arith, root_size)) in
    let dir_size = dir.frame.same_size ∙ root_size in
    let boot = write_boot dir.out (omega (arith, dir_size)) efi.size in
    let boot_size = boot.frame.same_size ∙ dir_size in
    let chain : write_file_chain boot.out efi ≡ panic =
      unfold write_file_chain in
      file_loop-too_large efi (efi.size / bs + 1) 0 boot.out (omega arith) (omega arith) boot_size
        (omega arith) h in
    build_steps efi ∙ rw (headers-ok, fat.returns, root.returns, dir.returns, boot.returns, chain)

pub build_image-panic : (efi : Buffer) → file_capacity < efi.size → build_image efi ≡ panic
build_image-panic efi h = elim (Bool-cases (ltb 131067 (clusters_of efi.size))) [
  | inl long ↦
      build_steps efi
      ∙ rw (headers-ok, write_fat-too_long headers efi.size headers-size (ground arith))
  | inr short ↦ file_too_large efi h (
      unfold write_fat in
      fat_loop-FatWritten (clusters_of efi.size) headers headers-size (ground arith))
]
