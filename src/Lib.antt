-- ===== src/Lib.antt =====
-- ORCA-OS: a small operating system for one x86 processor. Modelled are its start, its terminals
-- and keyboard, its interrupts and their controllers, its clock and timer, its read-only file
-- system, paging, the system calls, how programs start and end, and the scheduler. Paths below are
-- from the repository's root.
--
-- Parts of the program, and where they are modelled:
--   Pic         student-distrib/i8259.c: the masks of the two interrupt controllers. Proofs:
--               Pic/Masks, Pic/Sync, Pic/Lines, Pic/Eoi.
--   Screen      the text screen in student-distrib/lib.c: clear, cursor_init, update_cursor,
--               switch_terminal_cursors, shift_rows_up, set_pos, backspace_on_screen,
--               backspace_to_prev, putc, putc_line_runover. Proofs: Screen/Fill, Screen/Frame,
--               Screen/Cursor. Screen/Term: shift_rows_up_term, putc_line_runover_term and
--               test_interrupts, which nothing calls.
--   Console     the state that the next three share: screen, line buffers, flags, controllers.
--   Terminal    terminal_open, terminal_close and terminal_write of student-distrib/keyboard.c,
--               with write_string_to_screen of lib.c. Proof: Terminal/Frame.
--   Switch      switch_terminal of student-distrib/scheduling.c. Proof: Switch/Pages.
--   Keyboard    scan_code_to_ascii and keyboard_handler of keyboard.c; Keyboard/Codes and
--               Keyboard/Characters have the constants of student-distrib/keyboard.h,
--               Keyboard/Table the characters of the keys, Keyboard/Read terminal_read. Proofs:
--               Keyboard/Modifiers, Keyboard/Frame, Keyboard/Handler, Keyboard/Read/Copy,
--               Keyboard/Read/Press, Keyboard/Read/Line.
--   Rtc         student-distrib/rtc.c. Proofs: Rtc/Wait, Rtc/Frequency.
--   Strings     strlen, strncmp, strcpy, strncpy, strrev and itoa of lib.c. Proofs:
--               Strings/Compare, Strings/Copy, Strings/Numbers, Strings/Lengths.
--   Printf      puts and printf of lib.c. Printf/Formats describes what a format stands for.
--   Idt         student-distrib/idt.c, and the gates of student-distrib/x86_desc.h. Proof:
--               Idt/Gates.
--   IdtTest     idt_test of student-distrib/tests.c.
--   Interrupts  the handlers of exceptions, student-distrib/interrupts.c.
--   Paging      student-distrib/paging.c. Proofs: Paging/Entries, Paging/Words, Paging/Translate,
--               which also says how the processor translates an address.
--   Files       student-distrib/filesystems.c without its drivers: fileSystem_init,
--               read_dentry_by_name, read_dentry_by_index, read_data. Proofs: Files/Names,
--               Files/Read.
--   Process     the process control block, and the kernel's state as a whole. Process/Drivers has
--               the file and directory functions of filesystems.c, Process/Calls sys_read,
--               sys_write, sys_open, sys_close and sys_getargs of student-distrib/system_call.c.
--               Proofs: Process/Calls/Files, Process/Calls/Directory, Process/Calls/Close,
--               Process/Calls/Arguments.
--               Process/Tasks has create_pcb, sys_halt and check_process_num of system_call.c.
--               Proofs: Process/Tasks/Closing, Process/Tasks/Halt.
--               Process/Execute has sys_execute, sys_vidmap, save_esp and restore_esp of
--               system_call.c. Proofs: Process/Execute/Command on the text
--               of the command, Opening and Load on the program's file, Steps and Total on what
--               stays as it was and on fuel, Started, Handover and Refused on the whole; Ninth on
--               sys_close(8) in a program that was started; Vidmap on sys_vidmap.
--   Scheduler   student-distrib/scheduling.c, pit_handler of student-distrib/pit.c,
--               system_execute of student-distrib/system_callASM.S and start_first_shell of
--               system_call.c. Proofs: Scheduler/Ticks, Scheduler/Runs,
--               Scheduler/Stacks.
--   Blocks      memset, memset_word, memset_dword, memcpy and memmove of lib.c. Proofs: Blocks/Fill,
--               Blocks/Copy.
--   Multiboot   what entry of student-distrib/kernel.c prints about the boot loader's information,
--               laid out by student-distrib/multiboot.h. Proof: Multiboot/Maps.
--   Segments    the two segment descriptors that entry makes, student-distrib/x86_desc.h.
--   Boot        entry of kernel.c as a whole, up to the loop in which it waits, with pit_init,
--               keyboard_init and sys_calls_init. Proof: Boot/Start.
--   System      the dispatch of system calls and the wrappers of system_callASM.S, sys_set_handler
--               and sys_sigreturn of system_call.c, and the interrupts as steps. Proofs:
--               System/Waits and System/Linkage on how calls end, System/Kept and
--               System/Return on a program that is started and halts; System/Limits on the limits of the kernel's
--               state, System/Calm, System/Consoles, System/Calls, System/Tasks,
--               System/Programs, System/Turns, System/Endings and System/Start on its parts,
--               System/Runs on the whole.
--   Base        what the modules share: tests, integers, words, memory, bounded loops.
--   Tests       examples on concrete states.
--
-- How they interact: the keyboard's interrupt runs keyboard_handler, which fills the line of the
-- terminal on display, echoes to the screen and may switch terminals; terminal_read spins until
-- the handler has seen Enter; a system call reaches a driver through the function pointers of a
-- descriptor; the timer's interrupt runs the scheduler, which executes the shells; sys_execute
-- maps the new process's memory and reads its file there.
--
-- Conventions. Memory is a function from addresses to bytes. A function of the source that changes
-- globals takes the record that holds them and returns it changed. Words of 32 bits wrap where the
-- source computes with unsigned ones. Bytes written with outb are logged, the latest first. What a
-- device answers, the scan codes that arrive, and how often the clock interrupts during a call are
-- arguments (the record Events of Process/Calls); a wait that outlasts them gives `none` or
-- `waits`. How many of them are enough is part of the theorems on terminal_read and rtc_read. The
-- loop of rtc_set_freq runs on 32 rounds of fuel, enough to shift a 32-bit word to zero. A jump
-- through a pointer that is no driver's ends the model (`jumps`). The buffers of a call are
-- memories of their own, which stand for the program's memory: system calls check no pointer, and a
-- read or getargs whose buffer is not in the program's own four megabytes is `unfollowed`. So is an
-- execute whose arguments run over the end of the new block; the bytes that go there are kept in
-- `overrun` of the block, and what they overwrite is not followed.
--
-- The two loops of sys_execute that have no bound run on fuel: more than the index of a zero of
-- the command behind its name is enough.
--
-- The loop of entry over the boot loader's memory map runs on fuel as well: one more than the
-- map's length is enough, since each entry moves on by at least four bytes.
--
-- Not modelled: launch_tests, which nothing calls, and the tests that are compiled out; cli and
-- sti, so that a handler never interrupts another; the assembly that loads registers, at the start
-- and around the handlers; addresses that wrap in the functions on blocks of memory; a program
-- file that is too long for its four megabytes; the overflow of the signed cursor and counters of
-- the screen after 2 ^ 31 lines, which C leaves undefined; the translation buffer of the processor.
pub mod Base
pub mod Pic
pub mod Screen
pub mod Console
pub mod Terminal
pub mod Switch
pub mod Keyboard
pub mod Strings
pub mod Files
pub mod Rtc
pub mod Paging
pub mod Scheduler
pub mod System
pub mod Boot
pub mod Blocks
pub mod Multiboot
pub mod Segments
pub mod Printf
pub mod Interrupts
pub mod Process
pub mod Idt
pub mod IdtTest
pub mod Tests
