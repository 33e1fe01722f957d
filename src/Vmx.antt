-- ===== src/Vmx.antt =====
-- src/hv/vmx.rs: the VMX instructions and the capability MSRs. The flags are what `pushfq` stores
-- right after an instruction; only CF, bit 0, is looked at.
pub mod FixedBits
pub mod Controls
use mochivm.Prelude.{ℕ, ◌/◌, ◌^◌, bit_and, bit_or, u32, Bool, not, String, ◌==◌, if◌then◌else◌}
use mochivm.Machine.{Action, M, pure, ◌>>=◌, ◌>>◌, emit, ask, Result, ok, err}
use mochivm.X86

abbrev pub cr4_vmxe : ℕ
cr4_vmxe = 2 ^ 13

abbrev pub ia32_feature_control : ℕ
ia32_feature_control = 0x3A

abbrev pub ia32_vmx_basic : ℕ
ia32_vmx_basic = 0x480

abbrev pub ia32_vmx_pinbased_ctls : ℕ
ia32_vmx_pinbased_ctls = 0x481

abbrev pub ia32_vmx_procbased_ctls : ℕ
ia32_vmx_procbased_ctls = 0x482

abbrev pub ia32_vmx_exit_ctls : ℕ
ia32_vmx_exit_ctls = 0x483

abbrev pub ia32_vmx_entry_ctls : ℕ
ia32_vmx_entry_ctls = 0x484

abbrev pub ia32_vmx_cr0_fixed0 : ℕ
ia32_vmx_cr0_fixed0 = 0x486

abbrev pub ia32_vmx_cr0_fixed1 : ℕ
ia32_vmx_cr0_fixed1 = 0x487

abbrev pub ia32_vmx_cr4_fixed0 : ℕ
ia32_vmx_cr4_fixed0 = 0x488

abbrev pub ia32_vmx_cr4_fixed1 : ℕ
ia32_vmx_cr4_fixed1 = 0x489

abbrev pub ia32_vmx_secondary_procbased_ctls : ℕ
ia32_vmx_secondary_procbased_ctls = 0x48B

unfoldable pub vmx_supported : M Bool
vmx_supported = do (_, ecx, _) ← X86.cpuid 1 0; pure (not (bit_and ecx (2 ^ 5) == 0))

-- What `feature_control` decides on the MSR's value.
unfoldable pub unlock : ℕ → M (Result (Unit {0}))
unlock msr =
    if not (bit_and msr 1 == 0)
    then if bit_and msr 2 == 0
      then pure (err "vmx locked and disabled by firmware")
      else pure (ok tt)
    else (X86.wrmsr ia32_feature_control (bit_or msr 3) >> pure (ok tt))

unfoldable pub feature_control : M (Result (Unit {0}))
unfolding unlock
feature_control = X86.rdmsr ia32_feature_control >>= unlock

-- `(value | fixed0) & fixed1`.
unfoldable pub fix_bits : (value fixed0 fixed1 : ℕ) → ℕ
fix_bits value fixed0 fixed1 = bit_and (bit_or value fixed0) fixed1

unfoldable pub apply_fixed_bits : M (Unit {0})
unfolding fix_bits
apply_fixed_bits = do
  cr0_fixed0 ← X86.rdmsr ia32_vmx_cr0_fixed0
  cr0_fixed1 ← X86.rdmsr ia32_vmx_cr0_fixed1
  cr0 ← X86.read_cr0
  X86.write_cr0 (fix_bits cr0 cr0_fixed0 cr0_fixed1)
  cr4_fixed0 ← X86.rdmsr ia32_vmx_cr4_fixed0
  cr4_fixed1 ← X86.rdmsr ia32_vmx_cr4_fixed1
  cr4 ← X86.read_cr4
  X86.write_cr4 (fix_bits cr4 cr4_fixed0 cr4_fixed1)

-- An instruction, and the test `flags & 1 != 0` behind it: whether CF is set.
unfoldable pub fails : Action → M Bool
fails a = do emit a; flags ← ask (λ hw h. hw.rflags h); pure (not (bit_and flags 1 == 0))

-- `Err` with a text if CF is set. The source's `Result<(), ()>` has no text; its callers give one.
unfoldable pub checked : Action → String → M (Result (Unit {0}))
unfolding fails
checked a e = do failed ← fails a; pure (if failed then err e else ok tt)

unfoldable pub vmxon : ℕ → M (Result (Unit {0}))
unfolding checked
vmxon region = do
  revision ← X86.rdmsr ia32_vmx_basic
  emit (Action.store32 region (u32 revision))
  checked (Action.vmxon region) "vmxon failed (cf set)"

unfoldable pub vmxoff : M (Result (Unit {0}))
unfolding checked
vmxoff = checked Action.vmxoff ""

unfoldable pub vmclear : ℕ → M (Result (Unit {0}))
unfolding checked
vmclear region = checked (Action.vmclear region) ""

unfoldable pub vmptrld : ℕ → M (Result (Unit {0}))
unfolding checked
vmptrld region = checked (Action.vmptrld region) ""

unfoldable pub vmwrite : (field value : ℕ) → M (Result (Unit {0}))
unfolding checked
vmwrite field value = checked (Action.vmwrite field value) ""

unfoldable pub vmread : ℕ → M ℕ
vmread field = do emit (Action.vmread field); ask (λ hw h. hw.field h)

-- `(desired | caps as u32) & (caps >> 32) as u32`.
unfoldable pub control_value : (caps desired : ℕ) → ℕ
control_value caps desired = bit_and (bit_or desired (u32 caps)) (u32 (caps / 2 ^ 32))

unfoldable pub calc_ctrl : (msr desired : ℕ) → M ℕ
unfolding control_value
calc_ctrl msr desired = do caps ← X86.rdmsr msr; pure (control_value caps desired)

unfoldable pub calc_secondary : ℕ → M ℕ
calc_secondary desired = do
  caps ← X86.rdmsr ia32_vmx_secondary_procbased_ctls
  pure (bit_and desired (u32 (caps / 2 ^ 32)))
