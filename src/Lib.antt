-- ===== src/Lib.antt =====
-- Verification of mochivm, a small type-2 hypervisor that starts as a UEFI application, and of its
-- manager.
--
-- The parts. The application (src/main.rs, src/hv.rs) probes for VMX, unlocks it, sets the fixed
-- bits of the control registers, prepares a VMCS and launches a guest that only halts. Each halt is
-- an exit to `host_entry`, whose handler counts it and resumes the guest; the fifth one, or any
-- other exit, turns VMX off. The manager (manager/src) is a window over a list of virtual machines:
-- it finds or downloads the firmware, writes the application into a FAT32 image at
-- EFI/BOOT/BOOTX64.EFI, from which the firmware of a virtual machine boots it, starts QEMU on that
-- image and shows what its threads read from the process. Its self-test does the same without a
-- window and waits for the banner.
--
-- Which file models what:
--   Buffer.antt: byte slices, with the panic of an index out of range.
--   Fat.antt, Fat/Image.antt: manager/src/fat.rs, a function per function of the source, loops by
--     recursion. Fat/Reader.antt is an independent reader of FAT32 volumes, by the published
--     layout; Fat/Table, Copies, Content, Directory, Built and RoundTrip.antt lead up to
--     Fat/Correct.antt.
--   Machine.antt: what the hypervisor does to the machine. A privileged instruction, a firmware
--     call or a line on the console is an `Action` on a history; `Hardware` answers each, as a
--     function of the whole history, so nothing is assumed of the processor. The statics
--     VMXON_REGION, VMCS_REGION, VMX_ACTIVE, EXIT_COUNT (src/hv/vmcs.rs) and SYSTEM_TABLE
--     (src/main.rs) are fields.
--   X86.antt: src/x86.rs. Vmx.antt: src/hv/vmx.rs.
--   Efi.antt: src/hv/efi.rs. The call for pages is an action with the address of the function that is
--     called, which Efi/Layout.antt reads by the layout of the source's tables; Efi/Services.antt
--     compares these with the tables of the UEFI specification.
--   Vmcs.antt with Vmcs/Fields.antt and Vmcs/Write.antt: src/hv/vmcs.rs. Vmcs/Mode.antt says when
--     the processor is in VMX root operation; Vmcs/Setup.antt and Vmcs/Exits.antt are about `setup`
--     and the exits.
--   Vmcs/Written.antt and Vmcs/Encodings.antt: the fields that a run writes, against the table of
--     encodings.
--   Vmcs/HostEntry.antt: the assembly of `host_entry`, an instruction at a time, with the handler
--     as a parameter. `host_entry` of Vmcs.antt is the same routine without the registers.
--   Vmcs/Halts.antt: the exits with a guest that only halts. Guest.antt: that guest,
--     src/hv/guest.rs and guest/hello.S, on an interpreter of its three instructions;
--     Guest/Loop.antt is about its exits.
--   Vmx/Controls.antt: the bits of the control values. Vmx/FixedBits.antt: what `apply_fixed_bits`
--     does with the register accesses as they are written.
--   Serial.antt: src/serial.rs; Serial/Output.antt is about the bytes sent, Serial/Uart.antt about
--     the registers of the UART.
--   Backend.antt with Backend/Requests.antt and Backend/Command.antt: manager/src/vm.rs, the QEMU
--     process, its command line and the threads that read its output. Backend/OneChild.antt is
--     about the processes that are alive, Backend/Readers.antt about the threads and the channel, in
--     any order of their turns.
--   Ovmf.antt: manager/src/ovmf.rs; Ovmf/Search.antt is about the search for the firmware,
--     Ovmf/Fetch.antt about its download.
--   App.antt with App/State.antt and App/Window.antt: the window of manager/src/main.rs, a frame of
--     `update` on a `Frame` that says what the user did in it. App/Log.antt is about the log and its
--     cap; App/Valid, SidePanel and Panels.antt are about what holds between two frames,
--     App/Frames.antt about any row of frames.
--   SelfTest.antt: `main` and `run_self_test` of manager/src/main.rs; SelfTest/Listen.antt is about
--     its loop, SelfTest/Verdict.antt about the ways in which it ends, SelfTest/ExitCode.antt about
--     the exit code.
--   Hv.antt: src/hv.rs and src/main.rs. A panic leads to the panic handler (`boot`). Hv/Boot.antt
--     is about every end of a run.
--
-- What is assumed. `WellBehaved` (Vmcs/Mode.antt) is what the code relies on and cannot check: the
-- function that is called for a page has stored an address other than 0 whenever it reports success,
-- and `vmxoff` succeeds in VMX root operation. Efi/Services.antt shows which function that is where
-- the tables are those of the UEFI specification.
-- `Accepts` says that no `vmwrite` fails, `Drains` that the serial port empties its transmitter,
-- `Conforms` that the exit handler keeps the calling convention, `Piped` that a process started
-- with piped output has its pipes, `Fits` that the loader fits the image, `Clamps` that a
-- `DragValue` of egui keeps its value in the range that it is given, `Sleeps` that `sleep` takes as
-- long as it is asked to, `Holds` that the firmware's tables are those of the UEFI specification,
-- `OnlyHalts` that each exit is by `hlt` and each `vmresume` enters the guest, `Loaded` that the
-- guest's code is in memory. Writing the image to disk is the parameter `save` of
-- `write_fat32_disk`; what the operating system, curl and tar answer are the fields of the two
-- records `System`.
--
-- Bounds and fuel. Numbers are natural numbers, with the wrap-around of u32 and u64 written out
-- where it can occur; overflow wraps, as in a release build. `write_file_chain` runs its loop with
-- one round for each 512 bytes and one more; that this is enough is part of the round trip, and of
-- the panic on larger files. `exits` takes the number of exits it follows; five are enough, since
-- the handler stops at the fifth. The data area of the image holds files of up to 34585088 bytes.
-- The console's polling loop has fuel for each wait; a bound on the polls that the transmitter
-- takes is enough. The self-test's loop has fuel for 251 tests of the time, since each round sleeps
-- for 100 of the 25000 milliseconds.
--
-- Not modelled. A line printed by the hypervisor is one action of its history and is not connected
-- with the port accesses of Serial.antt; faults, such as that of a `mov` to a control register with
-- reserved bits set; what the function does that Efi.antt calls; the processor that runs the guest
-- of Guest.antt under the VMCS that src/hv/vmcs.rs writes, its paging and interrupts; what the
-- window of manager/src/main.rs draws; what QEMU makes of its command line; the scripts.
pub mod Prelude
pub mod Buffer
pub mod Fat
pub mod Machine
pub mod X86
pub mod Efi
pub mod Vmx
pub mod Vmcs
pub mod Hv
pub mod Serial
pub mod Backend
pub mod Ovmf
pub mod App
pub mod SelfTest
pub mod Guest
