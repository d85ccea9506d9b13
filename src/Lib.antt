-- ===== src/Lib.antt =====
-- A small operating system for one 32-bit x86 processor: a kernel with a read-only file system, three
-- terminals over one screen, a keyboard and a real-time clock, up to six processes at a time, and a
-- scheduler that turns between the terminals. The sources are C files at the repository's root.
--
-- The parts and the files that model them:
--   CLib            lib.c: memory blocks and strings, and number output
--   CLib/Printf     lib.c, terminal.c: the conversions of printf and terminal_printf
--   CLib/Console    lib.c: the console of the start-up messages, putc, puts and printf
--   FileSys         file_sys.c: directory entries, inodes and data blocks of the boot image
--   Pic             i8259.c: the masks of the two interrupt controllers and the ports written
--   Rtc             rtc_driver.c: a clock for each terminal, divided from one interrupt
--   Terminal        terminal.c: the screen, the back buffers, the input lines and their calls
--   Kernel          globals.h, structs.h: the state that processes, scheduler and keyboard share
--   Kernel/Process  file_desc.c: process control blocks, descriptors and program pages
--   Kernel/Files    syscalls.c: read, write, open and close, through the tables of file operations
--   Kernel/Programs syscalls.c: execute, halt, getargs, vidmap and the command line
--   Kernel/Paging   paging.c: the page tables at start-up
--   Kernel/Schedule schedule.c, pit.c: the timer's turns and the change of the display
--   Kernel/Keyboard PS_2.c: scan codes, modifier keys and the characters they type
--   Kernel/Exceptions idt_handlers.c: the exceptions' messages, and how one ends a program
--   Kernel/Descriptors x86_desc.h, kernel.c: segment descriptors and the interrupt table
--   Kernel/Boot     kernel.c: the messages of the start, and the initialisers in their order
--   Kernel/Forest   all calls and interrupts together: the processes as three stacks
--   Kernel/Live     runs of interrupts while every terminal has a program
--   Prelude         shared names, lists under native indices, memory and 32-bit words
--   Tests           runs on a concrete machine
--
-- A function keeps the name it has in C, in lower case. State is passed explicitly: `Term` is the terminal driver's,
-- `Rtc` the clock's, `Pic` the controllers', `Fs` the file system's, and `Kernel` holds these and the
-- globals of the rest. Memory is one function from addresses to bytes, so that overlapping blocks and
-- strings without an end do what they do on the machine. Process control blocks are kept apart from it,
-- by address, with only the argument text in memory, and the arrays of a driver, such as input_buffer, are
-- functions of their index: a store past such an array, or one to a control block through a buffer that a
-- program passes, is not followed into what lies there.
-- A 32-bit word is a natural number with its wrap-around written out, and a result that can be negative
-- is an integer of the Prelude. System calls combine the drivers: read_func and write_func call the
-- terminal, the clock or the file system according to the descriptor, the keyboard's handler calls
-- terminal_putc and switch_terminals, the timer's handler calls schedule, and an exception prints through
-- terminal_printf and halts the program. printf and terminal_printf take the format by its characters and
-- the arguments by their 32-bit patterns, and share the conversions. entry calls the drivers' initialisers and
-- executes the shell.
--
-- Loops over a counter are structural. Loops that end at a byte in memory, the copying loop of
-- read_data and the digits of itoa run on fuel: strings need more fuel than their length, read_data one
-- round for each block touched and two more, itoa one more than the bits of its argument, and
-- so a conversion of printf 34 rounds and more. `none` is a
-- run that the fuel or the events given do not end, or that goes through a pointer never set. A call
-- that waits takes the keys or interrupts that arrive as a list. A value that a port returns is an
-- argument. A program that starts is an outcome, its entry point and stack; so a call ends by
-- returning a number or by entering a program.
--
-- Not modelled: boot.S and the assembly entry points, which save registers around the C functions; the
-- command history, which nothing reads; and the printing functions for testing. An interrupt between
-- sti and the first shell is left out. Control registers and the TLB have no counterpart, and
-- memory is indexed by virtual address: what a page holds while another one is mapped in its place is
-- not followed. A system call and a handler are steps that nothing breaks into. The gate of system calls
-- leaves interrupts on: the keys and clock interrupts that come while a call waits are among its arguments,
-- but a tick within a call, such as one between the new page and the new block of execute_func, is not
-- followed. After a change of stacks the run goes on in the function that saved the other stack
-- pointers, schedule or switch_terminals, which a control block records beside them: with the tail of
-- pit_handler, or with the end of get_c_keyboard, which does nothing more. What the other terminal's
-- program was doing before it was interrupted is not followed further.
pub mod Prelude
pub mod CLib
pub mod FileSys
pub mod Pic
pub mod Rtc
pub mod Terminal
pub mod Kernel
pub mod Tests
