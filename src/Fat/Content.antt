-- ===== src/Fat/Content.antt =====
-- `write_file_chain` of manager/src/fat.rs: the file's bytes in consecutive clusters.
use mochivm.Prelude.{
  ℕ, zero, suc, ◌+◌, ◌-◌, ◌*◌, ◌^◌, ◌≤◌, ◌<◌, ◌≡◌, refl, ◌∙◌, arith, min, Outcome, ok, panic, inl,
  inr, u32, leb, ltb, if◌then◌else◌, Bool-cases, false, ap,
}
use mochivm.Buffer.{Buffer, buffer, splice, slice}
use mochivm.Buffer.Laws.{
  Frame, Frame-trans, Frame-widen, splice-Frame, splice-inside, slice-ok, copy-ok, copy-panic,
}
use mochivm.Fat.{bs, sector_of, file_start_clus, file_loop}
use mochivm.Fat.Copies.{image_size}

-- Where the first cluster of the file begins, and how many bytes there are behind it.
abbrev pub file_base : ℕ
file_base = 2083 * bs

abbrev pub file_capacity : ℕ
file_capacity = image_size - file_base

sector_of-file : (q : ℕ) → q < 2 ^ 31 → sector_of (file_start_clus + q) ≡ 2083 + q
unfolding sector_of
sector_of-file q h = omega arith

-- The bytes of the file from cluster number `q` of its chain on.
abbrev chunk_of : Buffer → ℕ → Buffer
chunk_of content q =
    buffer (min (q * bs + bs) content.size - q * bs) (λ i. content.byte (q * bs + i))

abbrev put_chunk : Buffer → ℕ → Buffer → Buffer
put_chunk content q img = splice img (file_base + q * bs) (chunk_of content q)

module _ (content : Buffer) (q : ℕ) (img : Buffer) (short : q < 2 ^ 31)
    (left : q * bs ≤ content.size) where
  chunk_start : sector_of (file_start_clus + q) * bs ≡ file_base + q * bs
  chunk_start = omega (arith, sector_of-file q short)

  chunk_slice : slice content (q * bs) (min (q * bs + bs) content.size) ≡ ok (chunk_of content q)
  chunk_slice = slice-ok content _ _ (omega arith) (omega arith)

  file_loop-suc :
      (fuel : ℕ)
      → file_base + min (q * bs + bs) content.size ≤ img.size
      → file_loop content (suc fuel) (q * bs) (file_start_clus + q) img ≡ (
          if leb content.size (q * bs + bs)
          then ok (put_chunk content q img)
          else file_loop content fuel
              ((q + 1) * bs)
              (file_start_clus + (q + 1))
              (put_chunk content q img))
  unfolding file_loop
  file_loop-suc fuel room =
      let next_clus : u32 (file_start_clus + q + 1) ≡ file_start_clus + (q + 1) = omega arith in
      let next_offset : (q + 1) * bs ≡ q * bs + bs = omega arith in
      rw (
        chunk_slice,
        chunk_start,
        next_clus,
        next_offset,
        copy-ok img (file_base + q * bs) (file_base + q * bs + (chunk_of content q).size)
            (chunk_of content q) (omega arith) (omega arith) (omega arith),
      )

  file_loop-panic :
      (fuel : ℕ)
      → img.size < file_base + min (q * bs + bs) content.size
      → file_loop content (suc fuel) (q * bs) (file_start_clus + q) img ≡ panic
  unfolding file_loop
  file_loop-panic fuel room = rw (
    chunk_slice,
    chunk_start,
    copy-panic img (file_base + q * bs) (file_base + q * bs + (chunk_of content q).size)
        (chunk_of content q) (omega arith),
  )

-- The clusters from number `q` on hold the file's bytes from `q * bs` on; all else is `img`.
pub record FileWritten (content : Buffer) (q : ℕ) (img : Buffer) (result : Outcome Buffer)
    : Type 0 where
  pub out : Buffer
  pub returns : result ≡ ok out
  pub frame : Frame (file_base + q * bs) (file_base + content.size) img out
  pub bytes : (j : ℕ) → q * bs ≤ j → j < content.size → out.byte (file_base + j) ≡ content.byte j

module _ (content : Buffer) where
  put_chunk-inside :
      (q : ℕ) (img : Buffer) (j : ℕ)
      → q * bs ≤ j
      → j < q * bs + bs
      → j < content.size
      → (put_chunk content q img).byte (file_base + j) ≡ content.byte j
  put_chunk-inside q img j h k l =
      let at : file_base + j ≡ file_base + q * bs + (j - q * bs) = omega arith in
      let back : q * bs + (j - q * bs) ≡ j = omega arith in
      rw at (
        splice-inside img (file_base + q * bs) (chunk_of content q) (j - q * bs) (omega arith)
        ∙ ap content.byte back)

  put_chunk-Frame :
      (q : ℕ) (img : Buffer)
      → q * bs ≤ content.size
      → Frame (file_base + q * bs) (file_base + content.size) img (put_chunk content q img)
  put_chunk-Frame q img h =
      Frame-widen _ _ (splice-Frame img (file_base + q * bs) (chunk_of content q)) (omega arith)
        (omega arith)

  FileWritten-step :
      (q : ℕ) (img : Buffer) {result : Outcome Buffer}
      → q * bs ≤ content.size
      → FileWritten content (q + 1) (put_chunk content q img) result
      → FileWritten content q img result
  FileWritten-step q img h rest = record {
    out = rest.out;
    returns = rest.returns;
    frame =
        Frame-trans (put_chunk-Frame q img h)
          (Frame-widen _ _ rest.frame (omega arith) (omega arith));
    bytes = λ j p r. elim (Bool-cases (ltb j ((q + 1) * bs))) [
      | inl here ↦
          rest.frame.outside (file_base + j) (ground arith)
          ∙ put_chunk-inside q img j p (ground arith) r
      | inr later ↦ rest.bytes j (ground arith) r
    ];
  }

  -- Enough fuel and room: the loop returns.
  pub file_loop-FileWritten :
      (fuel q : ℕ) (img : Buffer)
      → q * bs ≤ content.size
      → content.size < (q + fuel) * bs
      → img.size ≡ image_size
      → content.size ≤ file_capacity
      → FileWritten content q img (file_loop content fuel (q * bs) (file_start_clus + q) img)
  file_loop-FileWritten zero q img h f s c = absurd (omega arith)
  file_loop-FileWritten (suc fuel) q img h f s c =
      rw (file_loop-suc content q img (omega arith) h fuel (omega arith))
        (elim (Bool-cases (leb content.size (q * bs + bs))) [
          | inl last ↦ rw last (record {
            out = put_chunk content q img;
            returns = refl;
            frame = put_chunk-Frame q img h;
            bytes = λ j p r. put_chunk-inside q img j p (ground arith) r;
          })
          | inr more ↦ rw more (
              let rest =
                file_loop-FileWritten fuel (q + 1) (put_chunk content q img) (ground arith)
                  (omega arith) (unfold splice in s) c in
              FileWritten-step q img h rest)
        ])

  -- With no room for the whole file the loop ends in a panic, at the first cluster that does not
  -- fit.
  pub file_loop-too_large :
      (fuel q : ℕ) (img : Buffer)
      → q * bs ≤ content.size
      → content.size < (q + fuel) * bs
      → img.size ≡ image_size
      → file_base + q * bs ≤ image_size
      → file_capacity < content.size
      → file_loop content fuel (q * bs) (file_start_clus + q) img ≡ panic
  file_loop-too_large zero q img h f s b c = absurd (omega arith)
  file_loop-too_large (suc fuel) q img h f s b c =
      elim (Bool-cases (leb (file_base + min (q * bs + bs) content.size) image_size)) [
        | inl fits ↦
            rw
              (
                file_loop-suc content q img (omega arith) h fuel (ground arith),
                let more : leb content.size (q * bs + bs) ≡ false = ground arith in more,
              )
              (file_loop-too_large fuel (q + 1) (put_chunk content q img) (ground arith)
                (omega arith) (unfold splice in s) (ground arith) c)
        | inr over ↦ file_loop-panic content q img (omega arith) h fuel (ground arith)
      ]
