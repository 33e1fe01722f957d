-- ===== src/Vmcs.antt =====
-- src/hv/vmcs.rs: setting the VMCS up, the handling of exits, and tearing VMX down.
pub mod Fields
pub mod Write
pub mod Teardown
pub mod Exits
pub mod Halts
pub mod Mode
pub mod Quiet
pub mod Setup
pub mod HostEntry
pub mod Written
pub mod Encodings
use mochivm.Prelude.{
  ℕ, zero, suc, ◌+◌, ◌-◌, ◌^◌, bit_and, u32, u64, Bool, true, false, not, leb, ◌==◌, [], ◌∷◌,
  if◌then◌else◌, String, length,
}
use mochivm.Guest.{guest_bin}
use mochivm.Machine.{
  Action, Machine, Step, done, M, pure, ◌>>=◌, ◌>>◌, emit, ask, println, attempt, Result, ok, err,
}
use mochivm.X86
use mochivm.Efi
use mochivm.Vmx
use Fields.{exit_reason, exit_qualification, exit_reason_hlt, guest_rip, max_hlt_exits}
use Write.{write_state}

abbrev pub set_vmxon_region : ℕ → M (Unit {0})
set_vmxon_region r m = done tt (record m { vmxon_region = r })

abbrev pub set_vmcs_region : ℕ → M (Unit {0})
set_vmcs_region r m = done tt (record m { vmcs_region = r })

abbrev pub set_vmx_active : Bool → M (Unit {0})
set_vmx_active b m = done tt (record m { vmx_active = b })

-- `cr4 & !CR4_VMXE` over 64 bits.
abbrev pub without_vmxe : ℕ → ℕ
without_vmxe cr4 = bit_and cr4 (2 ^ 64 - 1 - Vmx.cr4_vmxe)

-- `write_cr4(read_cr4() & !CR4_VMXE)`.
unfoldable pub clear_vmxe : M (Unit {0})
clear_vmxe = do cr4 ← X86.read_cr4; X86.write_cr4 (without_vmxe cr4)

unfoldable pub leave_vmx : M (Unit {0})
leave_vmx = do Vmx.vmxoff; clear_vmxe; set_vmxon_region 0

unfoldable pub vmxoff_and_clear : M (Unit {0})
vmxoff_and_clear m = if not (m.vmxon_region == 0) then leave_vmx m else done tt m

unfoldable pub stop_vmx : M (Unit {0})
stop_vmx m = (do Vmx.vmclear m.vmcs_region; Vmx.vmxoff; clear_vmxe; set_vmx_active false) m

unfoldable pub teardown : M (Unit {0})
teardown m = if m.vmx_active then stop_vmx m else done tt m

abbrev vmx_active : M Bool
vmx_active m = done m.vmx_active m

-- The error branches of `setup` behind `vmxon`.
unfoldable pub give_up : String → M (Result (Unit {0}))
give_up e = vmxoff_and_clear >> pure (err e)

unfoldable pub mark_ready : M (Result (Unit {0}))
mark_ready = do set_vmx_active true; println "[mochivm] vmcs ready" []; pure (ok tt)

-- `setup` from `write_state` on.
unfoldable pub finish_setup : (host_stack guest_code guest_stack : ℕ) → M (Result (Unit {0}))
finish_setup host_stack guest_code guest_stack =
    attempt (write_state host_stack guest_code guest_stack) (λ e. pure (err e)) (λ _. mark_ready)

-- `setup` from the stacks on.
unfoldable pub setup_guest : M (Result (Unit {0}))
setup_guest = attempt (Efi.allocate_pages 4) give_up λ host_stack.
    attempt Efi.allocate_page give_up λ guest_code. attempt Efi.allocate_page give_up λ guest_stack.
      do
        emit (Action.copy guest_code (length guest_bin))
        finish_setup host_stack guest_code guest_stack

-- `setup` from `vmclear` on.
unfoldable pub load_vmcs : ℕ → M (Result (Unit {0}))
load_vmcs vmcs_region =
    attempt (Vmx.vmclear vmcs_region) (λ _. give_up "vmclear failed")
      λ _.
        attempt (Vmx.vmptrld vmcs_region) (λ _. give_up "vmptrld failed")
          λ _. do set_vmcs_region vmcs_region; setup_guest

-- `setup` from the VMCS region on.
unfoldable pub setup_vmcs : M (Result (Unit {0}))
setup_vmcs = attempt Efi.allocate_page give_up λ vmcs_region. do
  revision ← X86.rdmsr 0x480
  emit (Action.store32 vmcs_region (u32 revision))
  load_vmcs vmcs_region

unfoldable pub setup : M (Result (Unit {0}))
setup =
    attempt Efi.allocate_page (λ e. pure (err e))
      λ region.
        attempt (Vmx.vmxon region) (λ e. pure (err e)) λ _. do set_vmxon_region region; setup_vmcs

-- `EXIT_COUNT.fetch_add(1) + 1`.
unfoldable pub count_exit : M ℕ
count_exit m = let n = u64 (m.exit_count + 1) in done n (record m { exit_count = n })

unfoldable pub last_hlt : ℕ → M ℕ
last_hlt count = do println "[mochivm] guest halted {} times, vmxoff" (count ∷ []); teardown; pure 1

unfoldable pub on_hlt : M ℕ
on_hlt = do
  count ← count_exit
  println "[mochivm] guest hlt #{}" (count ∷ [])
  rip ← Vmx.vmread guest_rip
  Vmx.vmwrite guest_rip (u64 (rip + 1))
  if leb max_hlt_exits count then last_hlt count else pure 0

unfoldable pub on_unexpected : ℕ → M ℕ
on_unexpected reason = do
  qual ← Vmx.vmread exit_qualification
  println "[mochivm] unexpected exit reason {} qual 0x{:x}, stopping" (reason ∷ qual ∷ [])
  teardown
  pure 1

unfoldable pub exit_handler : M ℕ
exit_handler = do
  reason ← Vmx.vmread exit_reason
  if reason == exit_reason_hlt then on_hlt else on_unexpected reason

-- Where the processor is: in the guest, in the last loop of `host_entry`, or in the loop behind a
-- `vmlaunch` or `vmresume` that did not enter the guest.
pub data Status : Type 0 where
  running : Status
  stopped : Status
  stuck : Status

unfoldable pub entered : Action → M Status
entered a = do emit a; inside ← ask (λ hw h. hw.enters h); pure (if inside then running else stuck)

unfoldable pub enter_guest : M Status
enter_guest = entered Action.vmlaunch

-- One exit: `host_entry` but for the registers that it saves and restores.
unfoldable pub host_entry : M Status
host_entry = do stop ← exit_handler; if stop == 0 then entered Action.vmresume else pure stopped

-- The exits from a running guest, at most `fuel` of them.
unfoldable pub exits : ℕ → M Status
exits zero = pure running
exits (suc fuel) = do
  s ← host_entry
  elim s [ running ↦ exits fuel | stopped ↦ pure stopped | stuck ↦ pure stuck ]
