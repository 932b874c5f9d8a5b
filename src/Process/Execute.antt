-- ===== src/Process/Execute.antt =====
-- Starting a program: sys_execute of student-distrib/system_call.c, with save_esp and restore_esp,
-- and sys_vidmap. A program sees its four megabytes of physical memory from 0x8000000 on. The two
-- loops over the command that have no bound run on fuel.
pub mod Steps
pub mod Total
pub mod Vidmap
pub mod Refused
pub mod Handover
pub mod Ninth
pub mod Started
pub mod Load
pub mod Opening
pub mod Command
use orca_os.Base.{
  ℕ, zero, suc, ◌+◌, ◌-◌, ◌*◌, ◌/◌, ◌%◌, ◌^◌, ℤ, pos, minus_one, to_i32, Bool, true, false, ltb,
  leb, ◌==◌, ◌||◌, if◌then◌else◌, Option, none, some, List, [], ◌∷◌, Memory, update, load32, slice,
  for_range, bytes_of, u8, u32, sub32, codes,
}
use orca_os.Strings.{strncmp}
use orca_os.Files.{is_zero}
use orca_os.Paging
use orca_os.Paging.{Pages}
use orca_os.Console.{Console}
use orca_os.Process.{Pcb, Kernel, Schedule, below}
use orca_os.Process.Drivers.{file_open, file_read, file_close}
use orca_os.Process.Tasks.{create_pcb, system_call_paging}

-- Where the program image lies in the four megabytes.
abbrev pub image_at : ℕ
image_at = 0x48000

abbrev pub magic : List ℕ
magic = 0x7F ∷ 0x45 ∷ 0x4C ∷ 0x46 ∷ []

-- The loop that copies the name, with `left` rounds to go: where it ends.
unfoldable pub name_end : Memory → ℕ → ℕ → ℕ
name_end command i zero = i
name_end command i (suc left) =
    let rest = name_end command (i + 1) left in
    if (command i == 0x20) || (command i == 0) then i else rest

-- `process_name`, of at most 31 bytes.
unfoldable pub process_name : Memory → List ℕ
process_name command = slice command 0 (name_end command 0 31)

unfoldable pub skip_spaces : ℕ → Memory → ℕ → Option ℕ
skip_spaces zero command i = none
skip_spaces (suc fuel) command i =
    let rest = skip_spaces fuel command (i + 1) in if command i == 0x20 then rest else some i

-- Byte `b` of the word `w` is replaced.
unfoldable pub set_byte : ℕ → ℕ → ℕ → ℕ
set_byte w b c = w - w / 2 ^ (8 * b) % 2 ^ 8 * 2 ^ (8 * b) + c * 2 ^ (8 * b)

-- `arguments[i] = c`, with no bound: behind the 128 bytes come those of `arg_position`, and behind
-- them the block ends. There lies the kernel's stack of the process, and 8 KB on the block of the
-- process before: a store there is noted in `overrun`, and what it overwrites is not followed.
unfoldable pub store_argument : ℕ → ℕ → Pcb → Pcb
store_argument i c p =
    if ltb i 128
    then record p { arguments = update p.arguments i c }
    else if ltb i 132
    then record p { arg_position = set_byte p.arg_position (i - 128) c }
    else record p { overrun = (i, c) ∷ p.overrun }

-- Bytes have been stored behind the block.
abbrev pub some_stored : List (ℕ × ℕ) → Bool
some_stored [] = false
some_stored (x ∷ xs) = true

unfoldable pub spills : Pcb → Bool
spills p = some_stored p.overrun

-- The loop that copies the arguments, from `command[i]` to `arguments[j]`.
unfoldable pub copy_arguments : ℕ → Memory → ℕ → ℕ → Pcb → Option Pcb
copy_arguments zero command i j p = none
copy_arguments (suc fuel) command i j p =
    let rest = copy_arguments fuel command (i + 1) (j + 1) (store_argument j (command i) p) in
    if command i == 0 then some p else rest

abbrev pub on_current : (Pcb → Pcb) → Kernel → Kernel
on_current f k = record k { pcbs = update k.pcbs k.current_pcb (f (k.pcbs k.current_pcb)) }

-- The number of the running program's four megabytes.
abbrev pub user_frame : Kernel → ℕ
user_frame k = (k.pages.directory 32).upper_address

abbrev pub on_frame : (Memory → Memory) → Kernel → Kernel
on_frame f k = let n = user_frame k in record k { frames = update k.frames n (f (k.frames n)) }

abbrev pub contents : Option Memory → Memory → Memory
contents none m = m
contents (some out) m = out

-- A new block becomes current, the file is opened, and its first 40 bytes go to `temp_buffer`,
-- which holds what was on the stack.
unfoldable pub open_program : Memory → Memory → Kernel → Kernel × ℤ × Memory
open_program command stack k =
    let (k1, a) = create_pcb k in
    let (k2, fd) = file_open (some (process_name command)) (record k1 { current_pcb = a }) in
    let (k3, out, r) = file_read fd (some stack) (pos 40) k2 in (k3, fd, contents out stack)

-- What is done when the file is no program.
unfoldable pub give_back : ℤ → Kernel → Kernel
give_back fd k =
    let k1 = (file_close fd k).0 in
    let n = sub32 k1.process_number 1 in record k1 { process_number = n; current_pcb = below n }

-- The first 40 bytes are copied, and the rest of the file is read behind them. A file that is too
-- long for the four megabytes would run into the addresses behind them, which is not followed.
unfoldable pub load_image : ℤ → Memory → Kernel → Kernel
load_image fd buf k =
    let k1 = on_frame (λ m. for_range 40 0 (λ i m. update m (image_at + i) (buf i)) m) k in
    let m = k1.frames (user_frame k1) in
    let (k2, out, r) = file_read fd (some (λ j. m (image_at + 40 + j))) (pos 0x400000) k1 in
    on_frame (λ m a. if ltb a (image_at + 40) then m a else contents out m (a - (image_at + 40)))
      (file_close fd k2).0

-- From the paging on; the result is where the program starts.
unfoldable pub start_program : ℤ → Memory → Kernel → Kernel × ℤ
start_program fd buf k =
    let k1 = load_image fd buf (system_call_paging (k.pcbs k.current_pcb) k) in
    let p = k1.pcbs k1.current_pcb in
    let n = k1.schedule.recover_num in
    (
      record k1 {
        esp0 = below p.process_num;
        process_number = if ltb k1.process_number n then n else k1.process_number;
      },
      to_i32 (load32 buf 24),
    )

-- What is done when the file is a program, once the arguments have been copied.
abbrev pub continue : ℤ → Memory → Kernel → Option Pcb → Option (Kernel × ℤ)
continue fd buf k none = none
continue fd buf k (some p) =
    some (start_program fd buf (record k { pcbs = update k.pcbs k.current_pcb p }))

abbrev pub with_arguments_at : ℕ → Memory → ℤ → Memory → Kernel → Option ℕ → Option (Kernel × ℤ)
with_arguments_at fuel command fd buf k none = none
with_arguments_at fuel command fd buf k (some i) =
    continue fd buf k (copy_arguments fuel command i 0 (k.pcbs k.current_pcb))

unfoldable pub execute : ℕ → Memory → ℤ → Memory → Kernel → Option (Kernel × ℤ)
execute fuel command fd buf k =
    if is_zero (strncmp buf (bytes_of magic) 4)
    then with_arguments_at fuel command fd buf k
        (skip_spaces fuel command (name_end command 0 31 + 1))
    else some (give_back fd k, minus_one)

-- `none` for the command is NULL; the result is `none` if the fuel does not suffice.
unfoldable pub sys_execute : ℕ → Option Memory → Memory → Kernel → Option (Kernel × ℤ)
sys_execute fuel none stack k = some (k, minus_one)
sys_execute fuel (some command) stack k =
    if (command 0 == 0) || leb 6 k.process_number
    then some (k, minus_one)
    else (let (k1, fd, buf) = open_program command stack k in execute fuel command fd buf k1)

unfoldable pub save_esp : ℕ → Kernel → Kernel
save_esp esp k = on_current (λ p. record p { esp = u32 (esp + 4) }) k

unfoldable pub restore_esp : Kernel → ℕ
restore_esp k = (k.pcbs k.current_pcb).esp

-- The command "shell" with its zero, and whatever bytes lie behind that.
abbrev pub shell : Memory → Memory
shell behind i = if ltb i 6 then bytes_of (codes "shell") i else behind (i - 6)

-- A store by the kernel at a program's address: the four megabytes, and behind them the screen.
unfoldable pub store_user : ℕ → ℕ → Kernel → Kernel
store_user a c k =
    if ltb a 0x8400000 then on_frame (λ m. update m (a - 0x8000000) c) k else record k {
      console = record (k.console) {
        screen = record (k.console.screen) {
          mem = update k.console.screen.mem (0xB8000 + (a - 0x8400000)) c;
        };
      };
    }

-- `*screen_start = 132 MB`, in four bytes.
unfoldable pub sys_vidmap : ℕ → Kernel → Kernel × ℤ
sys_vidmap screen_start k =
    if (screen_start == 0) || ltb screen_start 0x8000000 || ltb 0x8400000 screen_start
    then (k, minus_one)
    else (
      for_range 4 0 (λ i. store_user (screen_start + i) (0x8400000 / 2 ^ (8 * i) % 2 ^ 8))
          (record k { pages = Paging.system_call_vidmap k.pages }),
      pos 0x8400000,
    )
