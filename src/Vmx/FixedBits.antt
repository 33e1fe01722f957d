-- ===== src/Vmx/FixedBits.antt =====
-- `apply_fixed_bits` of src/hv/vmx.rs with the register accesses of src/x86.rs.
use mochivm.Prelude.{ℕ, ◌≡◌, refl}
use mochivm.Machine.{History, Machine, done}
use mochivm.X86
use mochivm.Vmx.{apply_fixed_bits}

-- If the register that stands for an unset operand holds `s` whenever it is read, then after
-- `apply_fixed_bits` CR0 and CR4 hold `s`, whatever they held before and whatever the MSRs of the
-- fixed bits say.
pub apply_fixed_bits-stale :
    (s : ℕ) (m : Machine)
    → ((h : History) → m.hardware.stale h ≡ s)
    → (m' : Machine) × (apply_fixed_bits m ≡ done tt m') × (m'.cr 0 ≡ s) × (m'.cr 4 ≡ s)
unfolding apply_fixed_bits X86.rdmsr X86.read_cr0 X86.write_cr0 X86.read_cr4 X86.write_cr4
apply_fixed_bits-stale s m e = (_, refl, e _, e _)
