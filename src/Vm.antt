-- ===== src/Vm.antt =====
-- kern/vm/addrspace.c: the page frames (coremap), the slots of the swap file (coreswap), and the
-- page faults that move pages between them; with tlb_invalidate of kern/arch/mips/vm/vm.c.
-- The content of a page frame, and that of a swap slot, is one number. `draws` holds the values that
-- random() will return; the clock is an argument. Interrupts are off between splhigh and splx, so
-- the functions run without others in between, but for the disk transfers.
pub mod Flags
pub mod State
pub mod Coremap
pub mod Slots
pub mod Swap
pub mod Fault
pub mod Search
pub mod Transfers
pub mod Frames
pub mod Owner
pub mod Alloc
pub mod Boot
pub mod Contiguous
mod Tests
mod Starts
pub use State.{Entry, Vm, Tlb}
