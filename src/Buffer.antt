-- ===== src/Buffer.antt =====
-- Rust byte slices: `[u8]`, `[u8; N]` and `Vec<u8>` as a length and a content. The content at or
-- behind the length is never read by the code.
pub mod Laws
use mochivm.Prelude.{
  ℕ, ◌+◌, ◌-◌, ◌*◌, ◌/◌, ◌%◌, ◌≤◌, ◌<◌, ◌≡◌, refl, Bool, ◌&&◌, List, [], ◌∷◌, String, arith, ltb,
  leb, ◌==◌, if◌then◌else◌, length, get_or, codes, Outcome, ok, panic, ◌>>=◌, ◌⊎◌, inl, inr,
}

pub record Buffer : Type 0 where
  pub size : ℕ
  pub byte : ℕ → ℕ

abbrev pub buffer : ℕ → (ℕ → ℕ) → Buffer
buffer n f = record { size = n; byte = f }

-- `vec![0u8; n]` and `[v; n]`.
abbrev pub filled : ℕ → ℕ → Buffer
filled n v = buffer n (λ _. v)

-- A byte-string literal.
abbrev pub literal : String → Buffer
literal s = buffer (length (codes s)) (λ i. get_or (codes s) i 0)

-- `u16::to_le_bytes` and `u32::to_le_bytes`.
unfoldable pub le16 : ℕ → Buffer
le16 v = buffer 2 (λ i. get_or (v % 256 ∷ v / 256 % 256 ∷ []) i 0)

unfoldable pub le32 : ℕ → Buffer
le32 v =
    buffer 4 (λ i. get_or (v % 256 ∷ v / 256 % 256 ∷ v / 65536 % 256 ∷ v / 16777216 % 256 ∷ []) i 0)

-- `src` laid over `b` from position `lo` on.
unfoldable pub splice : Buffer → ℕ → Buffer → Buffer
splice b lo src = record b {
  byte = λ i. if leb lo i && ltb i (lo + src.size) then src.byte (i - lo) else b.byte i;
}

-- `&b[lo..hi]`.
unfoldable pub slice : Buffer → ℕ → ℕ → Outcome Buffer
slice b lo hi =
    if leb lo hi && leb hi b.size then ok (buffer (hi - lo) (λ i. b.byte (lo + i))) else panic

-- `b[lo..hi].copy_from_slice(src)`.
unfoldable pub copy_from_slice : Buffer → ℕ → ℕ → Buffer → Outcome Buffer
unfolding splice
copy_from_slice b lo hi src =
    if leb lo hi && leb hi b.size && hi - lo == src.size then ok (splice b lo src) else panic

-- `b[i] = v`.
unfoldable pub store : Buffer → ℕ → ℕ → Outcome Buffer
unfolding splice
store b i v = if ltb i b.size then ok (splice b i (filled 1 v)) else panic

-- `f(&mut b[lo..hi])`: what `f` leaves in the view stands in `b` afterwards.
unfoldable pub with_slice : Buffer → ℕ → ℕ → (Buffer → Outcome Buffer) → Outcome Buffer
unfolding slice splice
with_slice b lo hi f = do view ← slice b lo hi; view' ← f view; ok (splice b lo view')
