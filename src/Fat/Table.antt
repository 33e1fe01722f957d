-- ===== src/Fat/Table.antt =====
-- The file allocation table that `write_fat` of manager/src/fat.rs lays down.
use mochivm.Prelude.{
  ℕ, zero, suc, ◌+◌, ◌*◌, ◌^◌, ◌≤◌, ◌<◌, ◌≡◌, refl, ◌∙◌, sym, arith, Outcome, ok, inl, inr, ◌==◌,
  if◌then◌else◌, u32, Bool-cases, ==-eq,
}
use native.Mathlib.Nat.{mod-eq_of_lt}
use mochivm.Buffer.{Buffer, buffer, le32, splice, copy_from_slice}
use mochivm.Buffer.Laws.{
  Frame, Frame-refl, Frame-trans, Frame-widen, splice-Frame, copy-ok, read32, read32-splice,
  read32-Frame, read32-ext,
}
use mochivm.Fat.{bs, fat_sec, eoc, file_start_clus, chain_loop, write_one_fat}

-- What a FAT has to say of cluster `c`, for a file of `n` clusters behind the three directories.
abbrev pub next_of : (n c : ℕ) → ℕ
next_of n c = if c + 1 == file_start_clus + n then eoc else c + 1

record ChainWritten (n lo left : ℕ) (fat : Buffer) (result : Outcome Buffer) : Type 0 where
  pub out : Buffer
  pub returns : result ≡ ok out
  frame : Frame (lo * 4) ((lo + left) * 4) fat out
  entries : (c : ℕ) → lo ≤ c → c < lo + left → read32 out.byte (c * 4) ≡ next_of n c

pub chain_loop-suc :
    (n left i : ℕ) (fat : Buffer)
    → (5 + i) * 4 + 4 ≤ fat.size
    → fat.size ≤ 2 ^ 32
    → chain_loop n (suc left) i fat
      ≡ chain_loop n left (i + 1) (splice fat ((5 + i) * 4) (le32 (next_of n (5 + i))))
unfolding chain_loop le32
chain_loop-suc n left i fat k s =
    let clus : u32 (file_start_clus + i) ≡ 5 + i = omega arith in
    let off : u32 ((5 + i) * 4) ≡ (5 + i) * 4 = omega arith in
    let next : (if i + 1 == n then eoc else u32 (5 + i + 1)) ≡ next_of n (5 + i) = ground arith in
    rw (
      clus,
      off,
      next,
      copy-ok fat ((5 + i) * 4) ((5 + i) * 4 + 4) (le32 (next_of n (5 + i))) (omega arith)
          (omega arith) (omega arith),
    )

pub next_of-lt : (n c : ℕ) → c + 1 < 2 ^ 28 → next_of n c < 2 ^ 28
next_of-lt n c h = ground arith

chain_loop-ChainWritten :
    (n left i : ℕ) (fat : Buffer)
    → i + left ≡ n
    → (5 + n) * 4 ≤ fat.size
    → fat.size ≤ 2 ^ 27
    → ChainWritten n (5 + i) left fat (chain_loop n left i fat)
unfolding splice le32
chain_loop-ChainWritten n zero i fat e k s = record {
  out = fat;
  returns = unfold chain_loop in refl;
  frame = Frame-refl _ _ fat;
  entries = λ c h h'. absurd (omega arith);
}
chain_loop-ChainWritten n (suc left) i fat e k s =
    let here = splice fat ((5 + i) * 4) (le32 (next_of n (5 + i))) in
    let rest = chain_loop-ChainWritten n left (i + 1) here (omega arith) k s in
    rw (chain_loop-suc n left i fat (omega arith) (omega arith)) (record {
      out = rest.out;
      returns = rest.returns;
      frame =
          Frame-trans
            (Frame-widen _ _ (splice-Frame fat ((5 + i) * 4) (le32 (next_of n (5 + i))))
              (omega arith) (omega arith))
            (Frame-widen _ _ rest.frame (omega arith) (omega arith));
      entries = λ c h h'. elim (Bool-cases (c == 5 + i)) [
        | inl same ↦ rw (==-eq c (5 + i) same) (
            read32-Frame rest.frame ((5 + i) * 4) (omega arith)
            ∙ read32-splice fat ((5 + i) * 4) (next_of n (5 + i))
            ∙ mod-eq_of_lt (omega (arith, next_of-lt n (5 + i))))
        | inr other ↦ rest.entries c (ground arith) (omega arith)
      ];
    })

-- The table that `g` holds, at four bytes an entry, for a file of `n` clusters: the media entry,
-- the ends of the single-cluster directories, the file's chain, and `f` behind it.
pub record IsTable (n : ℕ) (f g : ℕ → ℕ) : Type 0 where
  pub media : read32 g 0 ≡ 0x0FFF_FFF8
  pub reserved : (c : ℕ) → 1 ≤ c → c < 5 → read32 g (c * 4) ≡ eoc
  pub chain : (c : ℕ) → 5 ≤ c → c < 5 + n → read32 g (c * 4) ≡ next_of n c
  pub free : (c : ℕ) → 5 + n ≤ c → c < 131072 → read32 g (c * 4) ≡ read32 f (c * 4)

abbrev pub table_size : ℕ
table_size = fat_sec * bs

-- Only the bytes of the table count.
pub IsTable-ext :
    {n : ℕ} {f f' g g' : ℕ → ℕ}
    → n ≤ 131067
    → ((j : ℕ) → j < table_size → f j ≡ f' j)
    → ((j : ℕ) → j < table_size → g j ≡ g' j)
    → IsTable n f g
    → IsTable n f' g'
IsTable-ext h old new t = record {
  media = sym (read32-ext table_size new 0 (omega arith)) ∙ t.media;
  reserved = λ c p q. sym (read32-ext table_size new (c * 4) (omega arith)) ∙ t.reserved c p q;
  chain = λ c p q. sym (read32-ext table_size new (c * 4) (omega arith)) ∙ t.chain c p q;
  free = λ c p q.
      sym (read32-ext table_size new (c * 4) (omega arith))
      ∙ t.free c p q
      ∙ read32-ext table_size old (c * 4) (omega arith);
}

pub record TableWritten (n : ℕ) (f : ℕ → ℕ) (result : Outcome Buffer) : Type 0 where
  pub out : Buffer
  pub returns : result ≡ ok out
  pub size : out.size ≡ table_size
  pub table : IsTable n f out.byte

-- The table after the entries of the reserved and the directory clusters.
pub head_entries : (ℕ → ℕ) → Buffer
head_entries f =
    splice
      (splice
        (splice (splice (splice (buffer table_size f) 0 (le32 0x0FFF_FFF8)) 4 (le32 eoc)) 8
          (le32 eoc))
        12 (le32 eoc))
      16 (le32 eoc)

pub write_one_fat-head :
    (n : ℕ) (f : ℕ → ℕ) → write_one_fat n (buffer table_size f) ≡ chain_loop n n 0 (head_entries f)
unfolding write_one_fat head_entries copy_from_slice le32
write_one_fat-head n f = refl

head_entries-reserved :
    (f : ℕ → ℕ) (c : ℕ) → 1 ≤ c → c < 5 → read32 (head_entries f).byte (c * 4) ≡ eoc
unfolding head_entries read32 splice le32
head_entries-reserved f zero h k = absurd (omega arith)
head_entries-reserved f (suc zero) h k = refl
head_entries-reserved f (suc (suc zero)) h k = refl
head_entries-reserved f (suc (suc (suc zero))) h k = refl
head_entries-reserved f (suc (suc (suc (suc zero)))) h k = refl
head_entries-reserved f (suc (suc (suc (suc (suc c))))) h k = absurd (omega arith)

pub head_entries-Frame : (f : ℕ → ℕ) → Frame 0 20 (buffer table_size f) (head_entries f)
unfolding head_entries le32
head_entries-Frame f = Frame-trans (put 0 0x0FFF_FFF8 (buffer table_size f) (omega arith)) (
    Frame-trans (put 4 eoc _ (omega arith)) (
      Frame-trans (put 8 eoc _ (omega arith))
        (Frame-trans (put 12 eoc _ (omega arith)) (put 16 eoc _ (omega arith)))))
  where
    put : (off v : ℕ) (b : Buffer) → off + 4 ≤ 20 → Frame 0 20 b (splice b off (le32 v))
    put off v b h = Frame-widen 0 20 (splice-Frame b off (le32 v)) (omega arith) h

pub write_one_fat-TableWritten :
    (n : ℕ) (f : ℕ → ℕ) → n ≤ 131067 → TableWritten n f (write_one_fat n (buffer table_size f))
unfolding head_entries splice
write_one_fat-TableWritten n f h =
    let w =
      chain_loop-ChainWritten n n 0 (head_entries f) (omega arith) (omega arith) (omega arith) in
    rw (write_one_fat-head n f) (record {
      out = w.out;
      returns = w.returns;
      size = w.frame.same_size;
      table = record {
        media = read32-Frame w.frame 0 (omega arith) ∙ (unfold read32 le32 in refl);
        reserved =
            λ c p q. read32-Frame w.frame (c * 4) (omega arith) ∙ head_entries-reserved f c p q;
        chain = λ c p q. w.entries c (omega arith) (omega arith);
        free = λ c p q.
            read32-Frame w.frame (c * 4) (omega arith)
            ∙ read32-Frame (head_entries-Frame f) (c * 4) (omega arith);
      };
    })
