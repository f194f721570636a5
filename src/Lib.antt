-- ===== src/Lib.antt =====
-- A verification library of the SHE_X mini operating system.
--
-- The kernel (kernal/, C and assembly) is loaded by boot/ and enters `kmain` (kernal/kernel/kernel.c).
-- It sets up the segment descriptors, the bitmap of physical memory, paging, the interrupt table and
-- the timer, and then runs a shell. The keyboard's interrupt handler turns scan codes into characters,
-- which the shell waits for and collects into command lines. Beside the kernel stand small programs: a
-- worst-fit allocation, fixed partitions, a producer with a consumer, and a simulator. Paths here are
-- from the repository's root.
--
-- Files and code:
-- - Base: shared helpers. Tests has C's comparisons, Lists arrays and stores, Words the wrap-around of
--   machine integers, Bits and Masks the digits of words, Check tests by evaluation.
-- - Pmm: kernal/mem/phymem.c. The bitmap is a store of 32-bit words. Each function keeps its name
--   without the prefix `pmmngr_`; an address 0 stands for the null pointer. The memory map that the
--   boot loader leaves is an argument. The `while` loop of `toggle_range` runs on fuel, 2 ^ 20 + 1
--   rounds: each round covers a block at least, and there are 2 ^ 20 blocks.
-- - Vmm: kernal/mem/virtmem.c. `Machine` is physical memory as a store of words, the register of the
--   directory, the source's pointer to the directory and the bitmap of Pmm. Every `*pointer` goes
--   through `walk`, the processor's documented translation; `none` is a page fault. The setters on a
--   word are in Vmm.antt, the functions on pointers in Vmm/Paging.antt. The processor's translation
--   buffer is not in the model.
-- - Gdt: kernal/hal/gdt.c. The array is a list of five descriptors; a write past it gives `none`.
-- - Idt: kernal/hal/inthandling.c. The table is a store of gates, the handlers are names, whose
--   addresses are an argument (`Handler → ℕ`), since labels of kernal/hal/interruptstubs.asm share one,
--   and writes to ports are a list.
-- - Keyboard: kernal/driver/keyboard.c. The bytes of port 0x60 are arguments of `keyboard_handler`, and
--   so is what the source reads past its table. `wait_for_keyboard` takes the list of what the
--   interrupts did each time the processor woke.
-- - Timer: kernal/driver/timer.c. The text memory that the tick handler draws in is a store of bytes,
--   and the wait takes a list of interrupts as that of the keyboard does.
-- - Console: kernal/driver/dadio.c. The bytes from `__VGA_text_memory` on are a store, without an end,
--   and the cursor is a number of 16 bits, as the registers hold it that kernal/driver/cursor.asm
--   writes. A C string is the list of its characters; what `printhex` and `printint` read of the stack
--   is an argument. `clear_screen` runs on the number of cells as fuel.
-- - Ata: kernal/driver/ATA.c. The statuses and the words that the ports give are lists; `none` stands for
--   a list that ends while the code waits. Memory is a store of words from the target address on.
-- - WorstFit: kernal/memory_management/worst_fit.c. The numbers that are typed in are arguments, sizes
--   that are not negative; `none` stands for the index -1, and for more entries than the arrays have.
-- - Partition: kernal/memory_management/memory_alloc.c, as WorstFit with the typed numbers as
--   arguments; `none` stands for a division by 0 and for more processes than the array has.
-- - BoundedBuffer: kernal/Thread/pro_con.c. Each thread has a program counter, and `Step` is the
--   relation of the steps that the mutex and the condition variables allow, spurious wake-ups
--   included. The size of the buffer is a parameter, since no file declares it.
-- - Shell: kernal/kernel/kshell.c. A string is the list of its characters up to the 0. The root has
--   the tokens, the comparison and the choice of a command; the child Editor the loop that reads a
--   line, on the bytes of `_cmd_buffer` and on a Console, with Line as what the keys mean; Commands
--   the commands on the static variables; Ball the game, whose `int`s are the whole numbers of
--   Base/Int; and Rounds a round of the outer loop. Keys and wake-ups are lists, and `clear`, which no
--   file declares, is an argument. The loop that closes a gap has the 50 bytes of the buffer as fuel.
-- - Replacement: kernal/include/PageReplacementAlgorithms.h with Page.h, the page replacement of the
--   simulator under kernal/Process_scheduling. The two vectors and the hand of the clock are a record;
--   `undefined` stands for a read out of a vector and for fuel that is used up. CLOCK's loop has as many
--   turns as the memory has pages and one more: each turn that goes on resets a bit.
-- - Scheduling: kernal/Process_scheduling/Process.cpp and kernal/include/ProcessSchedulingAlgorithms.h.
--   A scheduling algorithm gets the ready queue, the running list and the quantum as a record. Times in
--   the type double are whole numbers, and `none` stands for a read out of a vector. LOTTERY, in the
--   child Lottery, gets what `rand` gives as an argument, and is not among the algorithms of `round`.
-- - Simulator: kernal/Process_scheduling/Simulate.cpp. `Simulator` has the seven queues and the counters;
--   `round` is the body of the loop of `StartSimulation`, of which the child Rounds has the part behind
--   the checks. A round may end with the exit of a replacement or with a read out of a vector. The child
--   Whole has the loop itself, with a number of rounds as fuel, of which no theorem says that it is
--   enough. The child Optimal has the replacement OPTIMAL, which is not a `Policy` of `round`.
-- - Scenario: `getPages` of kernal/Process_scheduling/main.cpp, with `std::sort` as an argument.
--
-- Every component has a module of its definitions, modules of lemmas, and Tests with runs at concrete
-- inputs.
--
-- Not modelled: the thread body of kernal/Thread/thread.c, the assembly, the entry of the kernel, and of
-- the C++ simulator the algorithm HRRN, reading the scenario's files, the statistics at the end, the
-- log, and the overflow of its signed counters, which takes 2 ^ 31 rounds. The contents of
-- `_tkn_buffer` beyond a token of 25 characters, which has no 0 behind it, and undefined reads
-- elsewhere are left out too.
pub mod Base
pub mod Pmm
pub mod Gdt
pub mod Idt
pub mod Keyboard
pub mod WorstFit
pub mod BoundedBuffer
pub mod Replacement
pub mod Scheduling
pub mod Simulator
pub mod Scenario
pub mod Console
pub mod Ata
pub mod Shell
pub mod Timer
pub mod Partition
pub mod Vmm
