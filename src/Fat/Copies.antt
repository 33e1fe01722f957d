-- ===== src/Fat/Copies.antt =====
-- `write_fat` of manager/src/fat.rs: both copies of the table, inside the image.
use mochivm.Prelude.{ℕ, zero, suc, ◌+◌, ◌-◌, ◌*◌, ◌≤◌, ◌<◌, ◌≡◌, refl, sym, arith, Outcome, ok, ◌≢◌}
use mochivm.Buffer.{Buffer, buffer, splice}
use mochivm.Buffer.Laws.{
  Frame, Frame-trans, Frame-widen, splice-Frame, splice-inside, with_slice-ok,
}
use mochivm.Fat.{bs, total_sec, rsvd_sec, fat_sec, num_fats, write_one_fat, fat_loop}
use mochivm.Fat.Table.{IsTable, IsTable-ext, table_size, TableWritten, write_one_fat-TableWritten}

abbrev pub image_size : ℕ
image_size = total_sec * bs

-- Where copy `k` of the table begins.
abbrev pub table_start : ℕ → ℕ
table_start k = (rsvd_sec + k * fat_sec) * bs

abbrev pub table_at : Buffer → ℕ → ℕ → ℕ
table_at img k i = img.byte (table_start k + i)

module _ (n : ℕ) (img : Buffer) (size : img.size ≡ image_size) (h : n ≤ 131067) where
  pub copy_written :
      (k : ℕ)
      → TableWritten n (table_at img k) (write_one_fat n (buffer table_size (table_at img k)))
  copy_written k = write_one_fat-TableWritten n (table_at img k) h

  pub with_copy : ℕ → Buffer
  with_copy k = splice img (table_start k) (copy_written k).out

  fat_loop-suc :
      (left k : ℕ) → k < 2 → fat_loop n (suc left) k img ≡ fat_loop n left (k + 1) (with_copy k)
  unfolding fat_loop with_copy
  fat_loop-suc left k b =
      let whole : table_start k + fat_sec * bs - table_start k ≡ table_size = omega arith in
      rw (
        with_slice-ok img (table_start k) (table_start k + fat_sec * bs) (write_one_fat n)
          (copy_written k).out (omega arith) (omega arith) (rw whole (copy_written k).returns))

  with_copy-size : (k : ℕ) → (with_copy k).size ≡ image_size
  unfolding with_copy splice
  with_copy-size k = size

  with_copy-Frame : (k : ℕ) → Frame (table_start k) (table_start k + table_size) img (with_copy k)
  unfolding with_copy
  with_copy-Frame k =
      Frame-widen _ _ (splice-Frame img (table_start k) (copy_written k).out) (omega arith)
        (omega (arith, (copy_written k).size))

  with_copy-IsTable : (k : ℕ) → IsTable n (table_at img k) (table_at (with_copy k) k)
  unfolding with_copy
  with_copy-IsTable k =
      let w = copy_written k in
      IsTable-ext h (λ j b. refl)
        (λ j b. sym (splice-inside img (table_start k) w.out j (omega (arith, w.size)))) w.table

pub record FatWritten (n : ℕ) (img : Buffer) (result : Outcome Buffer) : Type 0 where
  pub out : Buffer
  pub returns : result ≡ ok out
  pub frame : Frame (table_start 0) (table_start 2) img out
  pub tables : (k : ℕ) → k < num_fats → IsTable n (table_at img k) (table_at out k)

-- The other copy is not touched by a write of copy `k`.
other_copy :
    (n : ℕ) {img out : Buffer} (k j : ℕ) (f : ℕ → ℕ)
    → n ≤ 131067
    → k ≢ j
    → Frame (table_start k) (table_start k + table_size) img out
    → IsTable n f (table_at img j)
    → IsTable n f (table_at out j)
other_copy n k j f h ne fr t =
    IsTable-ext h (λ i b. refl) (λ i b. sym (fr.outside (table_start j + i) (omega arith))) t

both_tables :
    (n : ℕ) (img : Buffer) (size : img.size ≡ image_size) (h : n ≤ 131067)
    → let one = with_copy n img size h 0 in
      let one_size = with_copy-size n img size h 0 in
      (k : ℕ) → k < 2 → IsTable n (table_at img k) (table_at (with_copy n one one_size h 1) k)
both_tables n img size h zero b =
    let one = with_copy n img size h 0 in
    let one_size = with_copy-size n img size h 0 in
    other_copy n 1 0 (table_at img 0) h (omega arith) (with_copy-Frame n one one_size h 1)
      (with_copy-IsTable n img size h 0)
both_tables n img size h (suc zero) b =
    let one = with_copy n img size h 0 in
    let one_size = with_copy-size n img size h 0 in
    IsTable-ext h
      (λ j c. (with_copy-Frame n img size h 0).outside (table_start 1 + j) (omega arith))
      (λ j c. refl) (with_copy-IsTable n one one_size h 1)
both_tables n img size h (suc (suc k)) b = absurd (omega arith)

pub fat_loop-FatWritten :
    (n : ℕ) (img : Buffer)
    → img.size ≡ image_size
    → n ≤ 131067
    → FatWritten n img (fat_loop n 2 0 img)
fat_loop-FatWritten n img size h =
    let one = with_copy n img size h 0 in
    let one_size = with_copy-size n img size h 0 in
    rw
      (fat_loop-suc n img size h 1 0 (omega arith), fat_loop-suc n one one_size h 0 1 (omega arith))
      (record {
        out = with_copy n one one_size h 1;
        returns = unfold fat_loop in refl;
        frame =
            Frame-trans
              (Frame-widen _ _ (with_copy-Frame n img size h 0) (omega arith) (omega arith))
              (Frame-widen _ _ (with_copy-Frame n one one_size h 1) (omega arith) (omega arith));
        tables = both_tables n img size h;
      })
