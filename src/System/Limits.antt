-- ===== src/System/Limits.antt =====
-- The limits of the kernel's state, and how they are handed on.
use orca_os.Base.{ℕ, ◌≤◌, ◌≡◌, sym, ap, subst, arith}
use orca_os.Console.{Console}
use orca_os.Keyboard.Frame.{IsConsole}
use orca_os.Process.{Kernel, below}
use orca_os.Process.Calls.{Outcome, ret, waits, jumps}
use orca_os.System.Calm.{Calm}

-- No block, or one of those that lie below 8 MB at 8 KB from each other, the first at 8 MB.
pub data IsBlock (a : ℕ) : Type 0 where
  nowhere : a ≡ 0 → IsBlock a
  block : (n : ℕ) → n ≤ 6 → a ≡ below n → IsBlock a

-- At most six processes, numbered 0 to 5, on three terminals; the program that is mapped has one
-- of the first eight four-megabyte frames.
pub record Limits (k : Kernel) : Type 0 where
  pub console : IsConsole k.console
  pub current : IsBlock k.current_pcb
  pub number : k.process_number ≤ 6
  pub recover : k.schedule.recover_num ≤ 6
  pub frame : (k.pages.directory 32).upper_address ≤ 7
  pub numbers : (a : ℕ) → (k.pcbs a).process_num ≤ 5
  pub slots : (a i : ℕ) → (k.pcbs a).active_processes i ≤ 5
  pub home : (a : ℕ) → (k.pcbs a).parent_terminal ≤ 2

pub Calm-Limits : (k k' : Kernel) → Calm k k' → Limits k → Limits k'
Calm-Limits k k' c v = record {
  console = subst IsConsole (sym c.console) v.console;
  current = subst IsBlock (sym c.current) v.current;
  number = omega (arith, c.number, v.number);
  recover = omega (arith, c.recover, v.recover);
  frame = omega (arith, c.frame, v.frame);
  numbers = λ a. omega (arith, c.numbers a, v.numbers a);
  slots = λ a i. omega (arith, ap (λ (s : ℕ → ℕ). s i) (c.slots a), v.slots a i);
  home = λ a. omega (arith, c.home a, v.home a);
}

-- A step that changes only the console, and whatever the limits do not speak of.
pub with_console-Limits :
    (c : Console) (k : Kernel) → IsConsole c → Limits k → Limits (record k { console = c })
with_console-Limits c k w v = record {
  console = w;
  current = v.current;
  number = v.number;
  recover = v.recover;
  frame = v.frame;
  numbers = v.numbers;
  slots = v.slots;
  home = v.home;
}

-- A call that returns does so within the limits.
abbrev pub Within : Outcome → Type 0
Within (ret k buf r) = Limits k
Within waits = Unit {0}
Within (jumps a) = Unit {0}
