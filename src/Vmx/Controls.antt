-- ===== src/Vmx/Controls.antt =====
-- The control values of src/hv/vmx.rs, digit by digit, against the meaning that the capability MSRs
-- have.
use mochivm.Prelude.{
  ℕ, zero, suc, ◌*◌, ◌/◌, ◌^◌, ◌<◌, ◌≡◌, refl, ◌∙◌, sym, ap, arith, bit_and, bit_or, u32, bit,
  bit-lt, bit-zero, bit-and, bit-or, ◌∷◌, bit-add, bit-mod, bit-div, plus,
}
use Prim.Native.Nat.{min, max}
use mochivm.Machine.{Action, Machine, done}
use mochivm.X86
use mochivm.Vmx.{control_value, calc_ctrl, calc_secondary, ia32_vmx_secondary_procbased_ctls}

-- A control whose bit may be 1, must be 1, and is wanted to be.
abbrev pub setting : (may must wanted : ℕ) → ℕ
setting zero must wanted = 0
setting (suc may) zero wanted = wanted
setting (suc may) (suc must) wanted = 1

setting_lem :
    (may must wanted : ℕ)
    → may < 2
    → must < 2
    → wanted < 2
    → min (max wanted must) may ≡ setting may must wanted
setting_lem zero must wanted h k l = omega arith
setting_lem (suc may) zero wanted h k l = omega arith
setting_lem (suc may) (suc must) wanted h k l = omega arith

-- The two halves that `rdmsr` puts together.
module _ (hi lo : ℕ) (h : lo < 2 ^ 32) where
  low_half : (i : ℕ) → i < 32 → bit i (u32 (bit_or (hi * 2 ^ 32) lo)) ≡ bit i lo
  low_half i k =
      let none : bit i (hi * 2 ^ 32) ≡ 0 =
        ap (bit i) (omega arith) ∙ bit-add i 32 hi 0 k ∙ bit-zero i in
      bit-mod i 32 (bit_or (hi * 2 ^ 32) lo) k ∙ bit-or i (hi * 2 ^ 32) lo ∙ omega (arith, none)

  high_half : (i : ℕ) → i < 32 → bit i (u32 (bit_or (hi * 2 ^ 32) lo / 2 ^ 32)) ≡ bit i hi
  high_half i k =
      let all : bit (plus 32 i) (hi * 2 ^ 32) ≡ bit i hi =
        sym (bit-div i 32 (hi * 2 ^ 32)) ∙ ap (bit i) (omega arith) in
      let none : bit (plus 32 i) lo ≡ 0 =
        sym (bit-div i 32 lo) ∙ ap (bit i) (omega arith) ∙ bit-zero i in
      bit-mod i 32 (bit_or (hi * 2 ^ 32) lo / 2 ^ 32) k
      ∙ bit-div i 32 (bit_or (hi * 2 ^ 32) lo)
      ∙ bit-or (plus 32 i) (hi * 2 ^ 32) lo
      ∙ omega (arith, all, none)

-- What the formulas of `calc_ctrl` and `calc_secondary` come to.
control_value-bit :
    (hi lo desired i : ℕ)
    → lo < 2 ^ 32
    → i < 32
    → bit i (control_value (bit_or (hi * 2 ^ 32) lo) desired)
      ≡ setting (bit i hi) (bit i lo) (bit i desired)
unfolding control_value
control_value-bit hi lo desired i h k =
    let caps = bit_or (hi * 2 ^ 32) lo in
    bit-and i (bit_or desired (u32 caps)) (u32 (caps / 2 ^ 32))
    ∙ ap (λ x. min x (bit i (u32 (caps / 2 ^ 32)))) (bit-or i desired (u32 caps))
    ∙ ap (λ x. min (max (bit i desired) x) (bit i (u32 (caps / 2 ^ 32)))) (low_half hi lo h i k)
    ∙ ap (λ x. min (max (bit i desired) (bit i lo)) x) (high_half hi lo h i k)
    ∙ setting_lem (bit i hi) (bit i lo) (bit i desired) (bit-lt i hi) (bit-lt i lo)
        (bit-lt i desired)

secondary-bit :
    (hi lo desired i : ℕ)
    → lo < 2 ^ 32
    → i < 32
    → bit i (bit_and desired (u32 (bit_or (hi * 2 ^ 32) lo / 2 ^ 32)))
      ≡ setting (bit i hi) 0 (bit i desired)
secondary-bit hi lo desired i h k =
    let caps = bit_or (hi * 2 ^ 32) lo in
    bit-and i desired (u32 (caps / 2 ^ 32))
    ∙ ap (λ x. min (bit i desired) x) (high_half hi lo h i k)
    ∙ ap (λ x. min x (bit i hi)) (omega arith)
    ∙ setting_lem (bit i hi) 0 (bit i desired) (bit-lt i hi) (omega arith) (bit-lt i desired)

-- The answer of `rdmsr`, and the machine behind it.
abbrev pub answer : ℕ → Machine → ℕ × ℕ
answer msr m = m.hardware.msr (Action.rdmsr msr ∷ m.history)

abbrev pub asked : ℕ → Machine → Machine
asked msr m = record m { history = Action.rdmsr msr ∷ m.history }

-- Where `rdmsr` gives a low half of 32 bits, `calc_ctrl` reads the capability MSR, and each of the
-- 32 bits of its value is 0 where the high half does not allow a 1, else 1 where the low half
-- demands it, else as desired.
pub calc_ctrl-setting :
    (msr desired : ℕ) (m : Machine)
    → (answer msr m).0 < 2 ^ 32
    → (v : ℕ) × (calc_ctrl msr desired m ≡ done v (asked msr m))
      × ((i : ℕ)
          → i < 32
          → bit i v ≡ setting (bit i (answer msr m).1) (bit i (answer msr m).0) (bit i desired))
unfolding calc_ctrl X86.rdmsr
calc_ctrl-setting msr desired m h =
    (_, refl, λ i k. control_value-bit (answer msr m).1 (answer msr m).0 desired i h k)

-- Where `rdmsr` gives a low half of 32 bits, `calc_secondary` reads its capability MSR, and each of
-- the 32 bits of its value is as desired where the high half allows a 1, else 0.
pub calc_secondary-setting :
    (desired : ℕ) (m : Machine)
    → (answer ia32_vmx_secondary_procbased_ctls m).0 < 2 ^ 32
    → (v : ℕ) × (calc_secondary desired m ≡ done v (asked ia32_vmx_secondary_procbased_ctls m))
      × ((i : ℕ)
          → i < 32
          → bit i v
            ≡ setting (bit i (answer ia32_vmx_secondary_procbased_ctls m).1) 0 (bit i desired))
unfolding calc_secondary X86.rdmsr
calc_secondary-setting desired m h =
    let (lo, hi) = answer ia32_vmx_secondary_procbased_ctls m in
    (_, refl, λ i k. secondary-bit hi lo desired i h k)
