-- ===== src/Process/Calls.antt =====
-- The system calls on descriptors: sys_read, sys_write, sys_open, sys_close and sys_getargs of
-- student-distrib/system_call.c. A call through a descriptor's pointer goes to a driver, or to an
-- address that is none of the drivers'.
pub mod Files
pub mod Directory
pub mod Close
pub mod Arguments
use orca_os.Base.{
  ℕ, zero, suc, ◌+◌, ◌*◌, ◌^◌, ◌%◌, ◌-◌, ℤ, pos, negsuc, minus_one, pos_part, neg_part, to_u32,
  Bool, true, false, ltb, leb, ltb_ℤ, ◌==◌, ◌||◌, if◌then◌else◌, Option, none, some, List, Memory,
  update, load32, u32,
}
use orca_os.Console.{Console}
use orca_os.Pic.{Pic}
use orca_os.Terminal.{terminal_write, terminal_close}
use orca_os.Keyboard.Read.{terminal_read}
use orca_os.Rtc.{Rtc, rtc_read, rtc_write, rtc_open, rtc_close}
use orca_os.Files.{Dentry, read_dentry_by_name}
use orca_os.Process.{
  Driver, null, no_op, terminal, rtc, directory, file, raw, Fd, Pcb, Kernel, current_fd, set_fd,
}
use orca_os.Process.Drivers.{
  bad_fd, local_dentry, file_close, file_read, file_write, directory_read, directory_close,
  directory_write,
}

-- What happens outside while a call runs: the scan codes that the keyboard sends, how often the
-- clock interrupts, and what its registers A and B (and A once more) read as.
pub record Events : Type 0 where
  pub codes : List ℕ
  pub ticks : ℕ
  pub reg_a : ℕ
  pub reg_b : ℕ
  pub reg_a' : ℕ

-- A call returns, with the buffer that it was given; or it still waits; or control has gone to
-- the address given, which is none of the drivers'.
pub data Outcome : Type 0 where
  ret : Kernel → Option Memory → ℤ → Outcome
  waits : Outcome
  jumps : ℕ → Outcome

abbrev pub from_terminal : Kernel → Option (Console × List ℕ × Memory × ℤ) → Outcome
from_terminal k none = waits
from_terminal k (some (c, rest, out, r)) = ret (record k { console = c }) (some out) r

abbrev pub from_clock : Kernel → Option Memory → Option (Rtc × Pic × ℤ) → Outcome
from_clock k buf none = waits
from_clock k buf (some (s, pic, r)) =
    ret (record k { clock = s; console = record (k.console) { pic = pic } }) buf r

-- `current_pcb->file_array[fd].read(fd, buf, nbytes)`
unfoldable pub call_read : Driver → Events → ℤ → Memory → ℤ → Kernel → Outcome
call_read terminal ev fd buf nbytes k =
    from_terminal k (terminal_read ev.codes buf nbytes k.console)
call_read no_op ev fd buf nbytes k = ret k (some buf) minus_one
call_read rtc ev fd buf nbytes k =
    from_clock k (some buf) (rtc_read k.console.on_display ev.ticks k.clock k.console.pic)
call_read directory ev fd buf nbytes k =
    let (k', out, r) = directory_read fd (some buf) nbytes k in ret k' out r
call_read file ev fd buf nbytes k =
    let (k', out, r) = file_read fd (some buf) nbytes k in ret k' out r
call_read null ev fd buf nbytes k = jumps 0
call_read (raw a) ev fd buf nbytes k = jumps a

unfoldable pub call_write : Driver → ℤ → Memory → ℤ → Kernel → Outcome
call_write terminal fd buf nbytes k =
    let (c, r) = terminal_write buf nbytes k.console in ret (record k { console = c }) (some buf) r
call_write no_op fd buf nbytes k = ret k (some buf) minus_one
call_write rtc fd buf nbytes k =
    let (s, r) = rtc_write k.console.on_display (some buf) k.clock in
    ret (record k { clock = s }) (some buf) r
call_write directory fd buf nbytes k =
    let (k', r) = directory_write fd (some buf) nbytes k in ret k' (some buf) r
call_write file fd buf nbytes k =
    let (k', r) = file_write fd (some buf) nbytes k in ret k' (some buf) r
call_write null fd buf nbytes k = jumps 0
call_write (raw a) fd buf nbytes k = jumps a

-- `fd < 0 || fd >= FILE_ARRAY_LEN || file_array[fd].flags == 0`
abbrev pub not_open : ℤ → Kernel → Bool
not_open fd k = bad_fd fd || ((current_fd (pos_part fd) k).flags == 0)

unfoldable pub sys_read : Events → ℤ → Option Memory → ℤ → Kernel → Outcome
sys_read ev fd none nbytes k = ret k none minus_one
sys_read ev fd (some buf) nbytes k =
    if not_open fd k
    then ret k (some buf) minus_one
    else call_read (current_fd (pos_part fd) k).read ev fd buf nbytes k

unfoldable pub sys_write : ℤ → Option Memory → ℤ → Kernel → Outcome
sys_write fd none nbytes k = ret k none minus_one
sys_write fd (some buf) nbytes k =
    if not_open fd k
    then ret k (some buf) minus_one
    else call_write (current_fd (pos_part fd) k).write fd buf nbytes k

-- The switch of `sys_open` on the file's type, at descriptor `i` of the running process.
unfoldable pub open_as : Events → Dentry → ℕ → Kernel → Kernel
open_as ev e i k =
    let d = record (current_fd i k) { inode = e.inode_num; position = 0; flags = 1 } in
    if e.file_type == 0
    then (let k' = set_fd i (record d { read = rtc; write = rtc; open_ = rtc; close = rtc }) k in
        let r = rtc_open ev.reg_a ev.reg_b ev.reg_a' (k.clock, k.console.pic) in
        record k' { clock = r.0.0; console = record (k.console) { pic = r.0.1 } })
    else if e.file_type == 1
    then set_fd i
        (record d { read = directory; write = directory; open_ = directory; close = directory }) k
    else if e.file_type == 2
    then set_fd i (record d { read = file; write = file; open_ = file; close = file }) k
    else set_fd i d k

-- The loop over the descriptors, `left` of them from `i` on.
unfoldable pub open_free : Events → Dentry → ℕ → ℕ → Kernel → Kernel × ℤ
open_free ev e i zero k = (k, minus_one)
open_free ev e i (suc left) k =
    let rest = open_free ev e (i + 1) left k in
    if (current_fd i k).flags == 0 then (open_as ev e i k, pos i) else rest

unfoldable pub open_looked : Events → ℤ × Option Dentry → Kernel → Kernel × ℤ
open_looked ev (pos n, some e) k = open_free ev e 2 6 k
open_looked ev _ k = (k, minus_one)

-- `none` is NULL.
unfoldable pub sys_open : Events → Option (List ℕ) → Kernel → Kernel × ℤ
sys_open ev none k = (k, minus_one)
sys_open ev (some name) k =
    open_looked ev (read_dentry_by_name k.image (some name) (some local_dentry)) k

-- `pcb->file_array[fd].close(fd)`
unfoldable pub call_close : Driver → Events → ℤ → Kernel → Outcome
call_close terminal ev fd k =
    let (c, r) = terminal_close k.console in ret (record k { console = c }) none r
call_close no_op ev fd k = ret k none minus_one
call_close rtc ev fd k =
    let (s, r) = rtc_close ev.reg_a k.clock in ret (record k { clock = s }) none r
call_close directory ev fd k = let (k', r) = directory_close fd k in ret k' none r
call_close file ev fd k = let (k', r) = file_close fd k in ret k' none r
call_close null ev fd k = jumps 0
call_close (raw a) ev fd k = jumps a

-- Words of the arguments that lie where a ninth descriptor would have its `flags` and its `close`:
-- behind the array come `esp`, which would be its `read`, and the arguments.
abbrev pub ninth_flags : Kernel → ℕ
ninth_flags k = load32 (k.pcbs k.current_pcb).arguments 20

abbrev pub ninth_close : Kernel → ℕ
ninth_close k = load32 (k.pcbs k.current_pcb).arguments 8

-- The test is `fd < 2 || fd > FILE_ARRAY_LEN`, so 8 passes.
unfoldable pub sys_close : Events → ℤ → Kernel → Outcome
sys_close ev (negsuc n) k = ret k none minus_one
sys_close ev (pos n) k =
    if ltb n 2 || ltb 8 n
    then ret k none minus_one
    else if n == 8
    then (if ninth_flags k == 0 then ret k none minus_one else jumps (ninth_close k))
    else if (current_fd n k).flags == 0
    then ret k none minus_one
    else call_close (current_fd n k).close ev (pos n) k

-- The loop of `sys_getargs`, `left` rounds from byte `n` on, the argument being read from `at`.
unfoldable pub copy_args : Memory → ℕ → ℕ → ℕ → Memory → ℕ × Memory
copy_args args at n zero buf = (n, buf)
copy_args args at n (suc left) buf =
    let rest = copy_args args at (n + 1) left (update buf n (args (u32 (at + n)))) in
    if args (u32 (at + n)) == 0 then (n, buf) else rest

unfoldable pub sys_getargs : Memory → ℤ → Kernel → Kernel × Memory × ℤ
sys_getargs buf nbytes k =
    let p = k.pcbs k.current_pcb in
    let (n, out) = copy_args p.arguments p.arg_position 0 (pos_part nbytes) buf in
    let p' = record p { arg_position = u32 (p.arg_position + n) } in
    (
      record k { pcbs = update k.pcbs k.current_pcb p' },
      update out n 0,
      if n == 0 then minus_one else pos 0,
    )
