-- ===== src/Efi.antt =====
-- src/hv/efi.rs: page allocation by the firmware. The system table of the machine is the static
-- `SYSTEM_TABLE` of src/main.rs.
pub mod Layout
pub mod Services
mod Examples
use mochivm.Prelude.{ℕ, ◌==◌, if◌then◌else◌}
use mochivm.Efi.Layout.{allocate_pointer}
use mochivm.Machine.{Action, M, done, pure, ◌>>=◌, ◌>>◌, emit, ask, out_value, Result, ok, err}

-- The call of the function that the firmware's tables are taken to name for AllocatePages: what its
-- status decides, and `addr`, which is 0 unless that function stores an address.
call_allocate : ℕ → M (Result ℕ)
call_allocate pages = do
  function ← (λ m. done (allocate_pointer (m.hardware.memory m.history) m.system_table) m)
  emit (Action.call_allocate function 0 7 pages)
  (status, stored) ← ask (λ hw h. hw.pages h)
  pure (if status == 0 then ok (out_value stored) else err "allocate_pages failed")

unfoldable pub allocate_pages : ℕ → M (Result ℕ)
unfolding call_allocate
allocate_pages pages m =
    if m.system_table == 0 then pure (err "no system table") m else call_allocate pages m

unfoldable pub allocate_page : M (Result ℕ)
unfolding allocate_pages
allocate_page = allocate_pages 1
