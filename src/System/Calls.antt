-- ===== src/System/Calls.antt =====
-- The calls on descriptors, and the limits of the kernel's state.
use orca_os.Base.{
  ℕ, zero, suc, ◌+◌, ℤ, pos, negsuc, pos_part, if_cases, Option, none, some, List, Memory, ltb,
  ◌==◌, ◌||◌,
}
use orca_os.Console.{Console}
use orca_os.Pic.{Pic}
use orca_os.Rtc.{Rtc}
use orca_os.Files.{Dentry, read_dentry_by_name}
use orca_os.Keyboard.Frame.{IsConsole}
use orca_os.Keyboard.Read.{terminal_read}
use orca_os.Process.{
  Driver, null, no_op, terminal, rtc, directory, file, raw, Fd, Kernel, current_fd, set_fd,
}
use orca_os.Process.Drivers.{file_read, file_write, directory_read, directory_write, local_dentry}
use orca_os.Process.Calls.{
  Events, from_terminal, from_clock, call_read, call_write, call_close, not_open, open_as,
  open_free, open_looked, ninth_flags, sys_read, sys_write, sys_open, sys_close, sys_getargs,
}
use orca_os.System.Calm.{
  set_fd-Calm, file_read-Calm, file_close-Calm, directory_read-Calm, directory_close-Calm,
  sys_getargs-Calm,
}
use orca_os.System.Consoles.{
  Read, terminal_close-IsConsole, terminal_write-IsConsole, terminal_read-IsConsole,
}
use orca_os.System.Limits.{Limits, Calm-Limits, with_console-Limits, Within}

pub with_pic-IsConsole : (p : Pic) (c : Console) → IsConsole c → IsConsole (record c { pic = p })
with_pic-IsConsole p c v = record {
  shown = v.shown;
  fits = v.fits;
  cursor = v.cursor;
  saved_columns = v.saved_columns;
  saved_rows = v.saved_rows;
  flags = v.flags;
}

-- The clock and the interrupt controllers may change.
pub with_clock-Limits :
    (s : Rtc) (p : Pic) (k : Kernel)
    → Limits k
    → Limits (record k { clock = s; console = record (k.console) { pic = p } })
with_clock-Limits s p k v = record {
  console = with_pic-IsConsole p k.console v.console;
  current = v.current;
  number = v.number;
  recover = v.recover;
  frame = v.frame;
  numbers = v.numbers;
  slots = v.slots;
  home = v.home;
}

from_terminal-Within :
    (k : Kernel) (o : Option (Console × List ℕ × Memory × ℤ))
    → Limits k
    → Read o
    → Within (from_terminal k o)
from_terminal-Within k none v w = tt
from_terminal-Within k (some (c, rest, out, r)) v w = with_console-Limits c k w v

from_clock-Within :
    (k : Kernel) (buf : Option Memory) (o : Option (Rtc × Pic × ℤ))
    → Limits k
    → Within (from_clock k buf o)
from_clock-Within k buf none v = tt
from_clock-Within k buf (some (s, p, r)) v = with_clock-Limits s p k v

call_read-Within :
    (d : Driver) (ev : Events) (fd : ℤ) (buf : Memory) (n : ℤ) (k : Kernel)
    → Limits k
    → Within (call_read d ev fd buf n k)
unfolding call_read file_read directory_read
call_read-Within terminal ev fd buf n k v =
    from_terminal-Within k (terminal_read ev.codes buf n k.console) v
      (terminal_read-IsConsole ev.codes buf n k.console v.console)
call_read-Within no_op ev fd buf n k v = v
call_read-Within rtc ev fd buf n k v = from_clock-Within k (some buf) _ v
call_read-Within directory ev fd buf n k v =
    Calm-Limits k _ (directory_read-Calm fd (some buf) n k) v
call_read-Within file ev fd buf n k v = Calm-Limits k _ (file_read-Calm fd (some buf) n k) v
call_read-Within null ev fd buf n k v = tt
call_read-Within (raw a) ev fd buf n k v = tt

call_write-Within :
    (d : Driver) (fd : ℤ) (buf : Memory) (n : ℤ) (k : Kernel)
    → Limits k
    → Within (call_write d fd buf n k)
unfolding call_write file_write directory_write
call_write-Within terminal fd buf n k v =
    with_console-Limits _ k (terminal_write-IsConsole buf n k.console v.console) v
call_write-Within no_op fd buf n k v = v
call_write-Within rtc fd buf n k v = with_clock-Limits _ k.console.pic k v
call_write-Within directory fd buf n k v = v
call_write-Within file fd buf n k v = v
call_write-Within null fd buf n k v = tt
call_write-Within (raw a) fd buf n k v = tt

pub call_close-Within :
    (d : Driver) (ev : Events) (fd : ℤ) (k : Kernel) → Limits k → Within (call_close d ev fd k)
unfolding call_close
call_close-Within terminal ev fd k v =
    with_console-Limits _ k (terminal_close-IsConsole k.console v.console) v
call_close-Within no_op ev fd k v = v
call_close-Within rtc ev fd k v = with_clock-Limits _ k.console.pic k v
call_close-Within directory ev fd k v = Calm-Limits k _ (directory_close-Calm fd k) v
call_close-Within file ev fd k v = Calm-Limits k _ (file_close-Calm fd k) v
call_close-Within null ev fd k v = tt
call_close-Within (raw a) ev fd k v = tt

pub sys_read-Within :
    (ev : Events) (fd : ℤ) (buf : Option Memory) (n : ℤ) (k : Kernel)
    → Limits k
    → Within (sys_read ev fd buf n k)
unfolding sys_read
sys_read-Within ev fd none n k v = v
sys_read-Within ev fd (some buf) n k v =
    if_cases Within (not_open fd k) (λ e. v)
      (λ e. call_read-Within (current_fd (pos_part fd) k).read ev fd buf n k v)

pub sys_write-Within :
    (fd : ℤ) (buf : Option Memory) (n : ℤ) (k : Kernel) → Limits k → Within (sys_write fd buf n k)
unfolding sys_write
sys_write-Within fd none n k v = v
sys_write-Within fd (some buf) n k v =
    if_cases Within (not_open fd k) (λ e. v)
      (λ e. call_write-Within (current_fd (pos_part fd) k).write fd buf n k v)

pub sys_close-Within : (ev : Events) (fd : ℤ) (k : Kernel) → Limits k → Within (sys_close ev fd k)
unfolding sys_close
sys_close-Within ev (negsuc n) k v = v
sys_close-Within ev (pos n) k v =
    if_cases Within (ltb n 2 || ltb 8 n) (λ e. v)
      (λ e.
        if_cases Within (n == 8) (λ f. if_cases Within (ninth_flags k == 0) (λ g. v) (λ g. tt))
          (λ f.
            if_cases Within ((current_fd n k).flags == 0) (λ g. v)
              (λ g. call_close-Within (current_fd n k).close ev (pos n) k v)))

open_as-Limits :
    (ev : Events) (e : Dentry) (i : ℕ) (k : Kernel) → Limits k → Limits (open_as ev e i k)
unfolding open_as
open_as-Limits ev e i k v =
    let set = λ (d : Fd). Calm-Limits k (set_fd i d k) (set_fd-Calm i d k) v in
    if_cases Limits (e.file_type == 0) (λ h. with_clock-Limits _ _ _ (set _))
      (λ h.
        if_cases Limits (e.file_type == 1) (λ g. set _)
          (λ g. if_cases Limits (e.file_type == 2) (λ f. set _) (λ f. set _)))

open_free-Limits :
    (ev : Events) (e : Dentry) (i left : ℕ) (k : Kernel)
    → Limits k
    → Limits (open_free ev e i left k).0
unfolding open_free
open_free-Limits ev e i zero k v = v
open_free-Limits ev e i (suc left) k v =
    if_cases (λ (r : Kernel × ℤ). Limits r.0) ((current_fd i k).flags == 0)
      (λ h. open_as-Limits ev e i k v) (λ h. open_free-Limits ev e (i + 1) left k v)

open_looked-Limits :
    (ev : Events) (r : ℤ × Option Dentry) (k : Kernel) → Limits k → Limits (open_looked ev r k).0
unfolding open_looked
open_looked-Limits ev (pos n, some e) k v = open_free-Limits ev e 2 6 k v
open_looked-Limits ev (pos n, none) k v = v
open_looked-Limits ev (negsuc n, o) k v = v

pub sys_open-Limits :
    (ev : Events) (name : Option (List ℕ)) (k : Kernel) → Limits k → Limits (sys_open ev name k).0
unfolding sys_open
sys_open-Limits ev none k v = v
sys_open-Limits ev (some name) k v =
    open_looked-Limits ev (read_dentry_by_name k.image (some name) (some local_dentry)) k v

pub sys_getargs-Limits :
    (buf : Memory) (n : ℤ) (k : Kernel) → Limits k → Limits (sys_getargs buf n k).0
sys_getargs-Limits buf n k v = Calm-Limits k _ (sys_getargs-Calm buf n k) v
