-- ===== src/System.antt =====
-- How programs and devices enter the kernel: system_call_linkage and the wrappers of
-- student-distrib/system_callASM.S, sys_set_handler and sys_sigreturn of
-- student-distrib/system_call.c, and the interrupts of the keyboard, the clock and the timer as
-- steps on the kernel's state. cli and sti are not part of the state.
pub mod Calm
pub mod Limits
pub mod Calls
pub mod Consoles
pub mod Tasks
pub mod Programs
pub mod Turns
pub mod Endings
pub mod Waits
pub mod Linkage
pub mod Kept
pub mod Return
pub mod Start
pub mod Runs
use orca_os.Base.{
  ℕ, zero, suc, ◌-◌, ◌%◌, ◌^◌, ℤ, pos, negsuc, minus_one, pos_part, to_i32, to_u32, ltb_ℤ, leb, ◌+◌,
  ◌&&◌, Bool, if◌then◌else◌, Option, none, some, List, [], ◌∷◌, Memory,
}
use orca_os.Console.{Console}
use orca_os.Rtc.{rtc_handler}
use orca_os.Keyboard.{keyboard_handler}
use orca_os.Process.{Kernel}
use orca_os.Process.Calls.{
  Events, Outcome, ret, waits, jumps, sys_read, sys_write, sys_open, sys_close, sys_getargs,
}
use orca_os.Process.Tasks.{check_process_num, sys_halt}
use orca_os.Process.Execute.{spills, sys_execute, sys_vidmap}
use orca_os.Scheduler.{Turn, runs, returns, entered, start_first_shell}

-- What a program asks for: `eax`, and each argument as the call that takes it reads it, NULL being
-- `none`; and what surrounds the call: the devices, the stack and its pointer, the bytes behind
-- the string "shell", the words that lie from an index on at the jump table, and the fuel of
-- sys_execute.
pub record Request : Type 0 where
  pub eax : ℤ
  pub status : ℕ
  pub fd : ℤ
  pub nbytes : ℤ
  pub buf : Option Memory
  pub buf_at : ℕ
  pub args : Memory
  pub name : Option (List ℕ)
  pub command : Option Memory
  pub screen_start : ℕ
  pub events : Events
  pub stack : Memory
  pub esp : ℕ
  pub behind : Memory
  pub table_word : ℕ → ℕ
  pub fuel : ℕ

-- How a call ends: a program goes on, with its buffer and `eax`; a program starts at an address;
-- the call still waits; control is at an address that is no driver's; or it is back in
-- start_first_shell, whose return address is what system_execute has left in `edi`; or what the
-- call does is not followed, as it stores, or may store, where the state is not modelled.
pub data Ending : Type 0 where
  back : Kernel → Option Memory → ℤ → Ending
  started : Kernel → ℤ → Ending
  waiting : Ending
  jumped : ℕ → Ending
  stray : Kernel → Ending
  unfollowed : Ending

unfoldable pub sys_set_handler : Kernel → Kernel × ℤ
sys_set_handler k = (k, minus_one)

unfoldable pub sys_sigreturn : Kernel → Kernel × ℤ
sys_sigreturn k = (k, minus_one)

abbrev pub of_outcome : Outcome → Ending
of_outcome (ret k buf r) = back k buf r
of_outcome waits = waiting
of_outcome (jumps a) = jumped a

abbrev pub of_result : Kernel × ℤ → Ending
of_result (k, r) = back k none r

-- The low byte of the status is what the program that goes on gets.
unfoldable pub halted : ℕ → Outcome → Ending
halted status (ret k buf r) = back k none (pos (status % 2 ^ 8))
halted status waits = waiting
halted status (jumps a) = jumped a

abbrev pub strayed : Outcome → Ending
strayed (ret k buf r) = stray k
strayed waits = waiting
strayed (jumps a) = jumped a

-- Arguments that run over the end of the new block may overwrite anything behind it.
abbrev pub unless_spilled : Kernel → Ending → Ending
unless_spilled k e = if spills (k.pcbs k.current_pcb) then unfollowed else e

-- If the shell has not been started, sys_halt runs after all.
unfoldable pub after_shell : Events → Option Turn → Option Ending
after_shell ev none = none
after_shell ev (some (runs k r)) = some (unless_spilled k (started k r))
after_shell ev (some (returns k)) = some (unless_spilled k (strayed (sys_halt ev k)))

unfoldable pub system_halt : Request → Kernel → Option Ending
system_halt q k =
    if ltb_ℤ (pos 3) (to_i32 (check_process_num k))
    then some (halted q.status (sys_halt q.events k))
    else after_shell q.events (start_first_shell q.fuel q.behind q.stack q.esp k)

abbrev pub of_turn : Option Turn → Option Ending
of_turn none = none
of_turn (some (runs k r)) = some (unless_spilled k (started k r))
of_turn (some (returns k)) = some (unless_spilled k (back k none minus_one))

-- The entries of the jump table.
pub data Call : Type 0 where
  halt execute read write open_ close getargs vidmap set_handler sigreturn : Call

abbrev pub system_call_table : List Call
system_call_table =
    halt ∷ execute ∷ read ∷ write ∷ open_ ∷ close ∷ getargs ∷ vidmap ∷ set_handler ∷ sigreturn ∷ []

-- A buffer of `nbytes` bytes and one more, which calls store at most, that lies in the program's
-- own memory. The pointer itself is never checked.
abbrev pub is_own : ℕ → ℤ → Bool
is_own at nbytes = leb 0x8000000 at && leb (at + to_u32 nbytes + 1) 0x8400000

abbrev pub read_into : Option Memory → Request → Kernel → Ending
read_into none q k = of_outcome (sys_read q.events q.fd none q.nbytes k)
read_into (some buf) q k =
    if is_own q.buf_at q.nbytes
    then of_outcome (sys_read q.events q.fd (some buf) q.nbytes k)
    else unfollowed

unfoldable pub call : Call → Request → Kernel → Option Ending
call halt q k = system_halt q k
call execute q k = of_turn (entered q.esp (sys_execute q.fuel q.command q.stack k))
call read q k = some (read_into q.buf q k)
call write q k = some (of_outcome (sys_write q.fd q.buf q.nbytes k))
call open_ q k = some (of_result (sys_open q.events q.name k))
call close q k = some (of_outcome (sys_close q.events q.fd k))
call getargs q k =
    let (k', out, r) = sys_getargs q.args q.nbytes k in
    some (if is_own q.buf_at q.nbytes then back k' (some out) r else unfollowed)
call vidmap q k = some (of_result (sys_vidmap q.screen_start k))
call set_handler q k = some (of_result (sys_set_handler k))
call sigreturn q k = some (of_result (sys_sigreturn k))

-- `call *system_call_table(, i, 4)`: behind the table's entries, control goes to whatever word lies
-- there.
abbrev pub call_entry : Option Call → ℕ → Request → Kernel → Option Ending
call_entry none i q k = some (jumped (q.table_word i))
call_entry (some c) i q k = call c q k

abbrev pub table_entry : List Call → ℕ → Option Call
table_entry [] i = none
table_entry (c ∷ cs) zero = some c
table_entry (c ∷ cs) (suc i) = table_entry cs i

-- The guards are `eax <= 0` and `eax > 10`.
unfoldable pub system_call_linkage : Request → Kernel → Option Ending
system_call_linkage q k =
    if ltb_ℤ (pos 0) q.eax
    then (if ltb_ℤ (pos 10) q.eax
        then some (back k none minus_one)
        else (let i = pos_part q.eax - 1 in call_entry (table_entry system_call_table i) i q k))
    else some (back k none minus_one)

-- The keyboard's and the clock's interrupts.
abbrev pub press : ℕ → Kernel → Kernel
press code k = record k { console = keyboard_handler code k.console }

abbrev pub tick_clock : Kernel → Kernel
tick_clock k =
    let (s, pic) = rtc_handler k.console.on_display (k.clock, k.console.pic) in
    record k { clock = s; console = record (k.console) { pic = pic } }
