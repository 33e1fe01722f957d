-- ===== src/Buffer/Laws.antt =====
-- What a write into a slice leaves behind: the bytes of the source inside the range, the old
-- ones outside it.
use mochivm.Prelude.{
  ℕ, ◌+◌, ◌-◌, ◌*◌, ◌%◌, ◌^◌, ◌≤◌, ◌<◌, ◌≡◌, refl, ◌∙◌, arith, Outcome, ok, panic, ◌⊎◌, ◌&&◌, leb,
  ltb, ap, true,
}
use mochivm.Buffer.{Buffer, buffer, le32, splice, slice, copy_from_slice, with_slice}

-- `out` is `b` but for the positions from `lo` up to `hi`.
pub record Frame (lo hi : ℕ) (b out : Buffer) : Type 0 where
  pub same_size : out.size ≡ b.size
  pub outside : (i : ℕ) → (i < lo) ⊎ (hi ≤ i) → out.byte i ≡ b.byte i

-- A little-endian `u32` and `u16` at a position.
unfoldable pub read16 : (ℕ → ℕ) → ℕ → ℕ
read16 f off = f off + f (off + 1) * 256

unfoldable pub read32 : (ℕ → ℕ) → ℕ → ℕ
read32 f off = f off + f (off + 1) * 256 + f (off + 2) * 65536 + f (off + 3) * 16777216

module _ (b : Buffer) (lo : ℕ) (src : Buffer) where
  pub splice-inside : (j : ℕ) → j < src.size → (splice b lo src).byte (lo + j) ≡ src.byte j
  unfolding splice
  splice-inside j h =
      let inside : (leb lo (lo + j) && ltb (lo + j) (lo + src.size)) ≡ true = ground arith in
      let back : lo + j - lo ≡ j = omega arith in rw inside (ap src.byte back)

  pub splice-outside :
      (i : ℕ) → (i < lo) ⊎ (lo + src.size ≤ i) → (splice b lo src).byte i ≡ b.byte i
  unfolding splice
  splice-outside i h = ground arith

  pub splice-Frame : Frame lo (lo + src.size) b (splice b lo src)
  unfolding splice
  splice-Frame = record { same_size = refl; outside = splice-outside }

pub copy-ok :
    (b : Buffer) (lo hi : ℕ) (src : Buffer)
    → lo ≤ hi
    → hi ≤ b.size
    → hi - lo ≡ src.size
    → copy_from_slice b lo hi src ≡ ok (splice b lo src)
unfolding copy_from_slice
copy-ok b lo hi src h k e = ground arith

pub copy-panic :
    (b : Buffer) (lo hi : ℕ) (src : Buffer) → b.size < hi → copy_from_slice b lo hi src ≡ panic
unfolding copy_from_slice
copy-panic b lo hi src h = ground arith

pub slice-ok :
    (b : Buffer) (lo hi : ℕ)
    → lo ≤ hi
    → hi ≤ b.size
    → slice b lo hi ≡ ok (buffer (hi - lo) (λ i. b.byte (lo + i)))
unfolding slice
slice-ok b lo hi h k = ground arith

pub Frame-refl : (lo hi : ℕ) (b : Buffer) → Frame lo hi b b
Frame-refl lo hi b = record { same_size = refl; outside = λ i h. refl }

-- Two writes in the range stay in the range.
pub Frame-trans : {lo hi : ℕ} {b c d : Buffer} → Frame lo hi b c → Frame lo hi c d → Frame lo hi b d
Frame-trans p q = record {
  same_size = q.same_size ∙ p.same_size;
  outside = λ i h. q.outside i h ∙ p.outside i h;
}

pub Frame-widen :
    {lo hi : ℕ} {b c : Buffer} (lo' hi' : ℕ)
    → Frame lo hi b c
    → lo' ≤ lo
    → hi ≤ hi'
    → Frame lo' hi' b c
Frame-widen {lo} {hi} lo' hi' p h k = record {
  same_size = p.same_size;
  outside = λ i s. p.outside i (widen i s);
}
  where
    widen : (i : ℕ) → (i < lo') ⊎ (hi' ≤ i) → (i < lo) ⊎ (hi ≤ i)
    widen i s = omega arith

read32-le32 : (v : ℕ) → read32 (le32 v).byte 0 ≡ v % 2 ^ 32
unfolding read32 le32
read32-le32 v = omega arith

pub read32-splice : (b : Buffer) (off v : ℕ) → read32 (splice b off (le32 v)).byte off ≡ v % 2 ^ 32
unfolding read32 le32 splice
read32-splice b off v = ground (arith, read32-le32 v)

-- A `u32` apart from the range of a write is as before.
pub read32-Frame :
    {lo hi : ℕ} {b out : Buffer}
    → Frame lo hi b out
    → (off : ℕ) → (off + 4 ≤ lo) ⊎ (hi ≤ off)
    → read32 out.byte off ≡ read32 b.byte off
unfolding read32
read32-Frame p off h =
    ground (arith, p.outside off, p.outside (off + 1), p.outside (off + 2), p.outside (off + 3))

pub with_slice-ok :
    (b : Buffer) (lo hi : ℕ) (f : Buffer → Outcome Buffer) (view : Buffer)
    → lo ≤ hi
    → hi ≤ b.size
    → f (buffer (hi - lo) (λ i. b.byte (lo + i))) ≡ ok view
    → with_slice b lo hi f ≡ ok (splice b lo view)
unfolding with_slice
with_slice-ok b lo hi f view h k e = rw (slice-ok b lo hi h k, e)

pub read32-ext :
    {f g : ℕ → ℕ} (n : ℕ)
    → ((j : ℕ) → j < n → f j ≡ g j)
    → (off : ℕ) → off + 4 ≤ n
    → read32 f off ≡ read32 g off
unfolding read32
read32-ext n same off h = ground (arith, same off, same (off + 1), same (off + 2), same (off + 3))

pub read32-shift :
    (f : ℕ → ℕ) (base off : ℕ) → read32 (λ i. f (base + i)) off ≡ read32 f (base + off)
unfolding read32
read32-shift f base off = ground arith
