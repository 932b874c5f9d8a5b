-- ===== src/System/Runs.antt =====
-- Runs of the kernel: interrupts, system calls and what programs store, in any order. A handler is
-- one step, as nothing interrupts it; while a call waits for the keyboard or the clock, their
-- interrupts are part of the call. An exception ends a run, since its handler loops.
use orca_os.Base.{ℕ, ◌≤◌, ◌≡◌, subst, Option, none, some, List, Memory}
use mathlib.Core.Option.{some-injective}
use orca_os.Keyboard.Handler.{keyboard_handler-IsConsole}
use orca_os.Rtc.{rtc_handler}
use orca_os.Process.{Kernel}
use orca_os.Scheduler.{Turn, runs, returns, pit_handler}
use orca_os.Scheduler.Ticks.{state}
use orca_os.Boot.{Machine, Symbols, idles, entry}
use orca_os.System.{
  Request, Ending, back, started, waiting, jumped, stray, unfollowed, system_call_linkage, press,
  tick_clock,
}
use orca_os.System.Limits.{Limits, with_console-Limits, Calm-Limits}
use orca_os.System.Calls.{with_clock-Limits}
use orca_os.System.Programs.{frames-Calm}
use orca_os.System.Turns.{Turned, pit_handler-Turned}
use orca_os.System.Endings.{Ended, with_video-Limits, system_call_linkage-Ended}
use orca_os.System.Start.{IsLoaded, Idles, entry-Idles, first_tick-Turned}

-- The kernel's state behind a call, but for one that still waits, has gone to a foreign address, or
-- is not followed.
abbrev pub left : Ending → Option Kernel
left (back k buf r) = some k
left (started k r) = some k
left waiting = none
left (jumped a) = none
left (stray k) = some k
left unfollowed = none

-- The memory of all programs, and of the screen.
abbrev pub store : (ℕ → Memory) → Memory → Kernel → Kernel
store frames video k =
    let c = k.console in
    record k { console = record c { screen = record (c.screen) { mem = video } }; frames = frames }

-- The bytes behind the string "shell", which are taken for its arguments, fit into a block.
pub record IsShort (behind : Memory) : Type 0 where
  pub last : ℕ
  pub ends : behind last ≡ 0
  pub fits : last ≤ 131

pub data Step (k : Kernel) : Kernel → Type 0 where
  key : (code : ℕ) → Step k (press code k)
  clock : Step k (tick_clock k)
  timer :
      (fuel : ℕ) (behind stack : Memory) (esp : ℕ) (t : Turn)
      → pit_handler fuel behind stack esp k ≡ some t
      → IsShort behind
      → Step k (state t)
  calls :
      (q : Request) (e : Ending) (l : Kernel)
      → system_call_linkage q k ≡ some e
      → left e ≡ some l
      → Step k l
  stores : (frames : ℕ → Memory) (video : Memory) → Step k (store frames video k)

pub data Run (k : Kernel) : Kernel → Type 0 where
  here : Run k k
  step : (l m : Kernel) → Run k l → Step l m → Run k m

state-Limits : (t : Turn) → Turned (some t) → Limits (state t)
state-Limits (runs k r) w = w
state-Limits (returns k) w = w

left-Limits : (e : Ending) (l : Kernel) → left e ≡ some l → Ended (some e) → Limits l
left-Limits (back k buf r) l e w = subst Limits (some-injective k l e) w
left-Limits (started k r) l e w = subst Limits (some-injective k l e) w
left-Limits waiting l e w = cc
left-Limits (jumped a) l e w = cc
left-Limits (stray k) l e w = subst Limits (some-injective k l e) w
left-Limits unfollowed l e w = cc

Step-Limits : (k l : Kernel) → Step k l → Limits k → Limits l
unfolding rtc_handler
Step-Limits k l (key code) v =
    with_console-Limits _ k (keyboard_handler-IsConsole code k.console v.console) v
Step-Limits k l clock v = with_clock-Limits _ _ k v
Step-Limits k l (timer fuel behind stack esp t e s) v =
    state-Limits t (subst Turned e (pit_handler-Turned fuel behind stack esp k v))
Step-Limits k l (calls q e m c h) v =
    left-Limits e m h (subst Ended c (system_call_linkage-Ended q k v))
Step-Limits k l (stores frames video) v =
    with_video-Limits video _ (Calm-Limits k _ (frames-Calm frames k) v)

Run-Limits_from : (k l : Kernel) → Run k l → Limits k → Limits l
Run-Limits_from k l here v = v
Run-Limits_from k l (step m n r s) v = Step-Limits m n s (Run-Limits_from k m r v)

-- Once `entry` has come to its waiting loop and the timer has ticked for the first time, any
-- number of keys, interrupts of the clock and of the timer, system calls, and stores of programs to
-- their memory and to the screen, in any order, leave the kernel within its limits, as long as no
-- call is given a buffer that is not in the program's own memory to store to, and no program is
-- started with more than the 131 bytes of arguments that its block has room for: at most six processes, with numbers up to 5 in every block and in every terminal's list;
-- the current block is none, or one of those up to 48 KB below 8 MB; the mapped program's memory is
-- one of the first eight four-megabyte frames; every block belongs to one of the three terminals,
-- one of them is shown, no line has more than 127 bytes, and the cursor and the saved ones are on
-- the screen. What the loader leaves in the kernel's variables and in the blocks is within these
-- limits, as zeros are.
pub Run-Limits :
    (text : ℕ → List ℕ) (y : Symbols) (fuel reg_a reg_b magic addr : ℕ) (m m' : Machine)
    → IsLoaded m.kernel
    → entry text y fuel reg_a reg_b magic addr m ≡ some (idles m')
    → (steps : ℕ) (behind stack : Memory) (esp : ℕ) (t : Turn)
    → pit_handler steps behind stack esp m'.kernel ≡ some t
    → IsShort behind
    → (k : Kernel) → Run (state t) k
    → Limits k
Run-Limits text y fuel reg_a reg_b magic addr m m' v e steps behind stack esp t h short k r =
    let w = subst Idles e (entry-Idles text y fuel reg_a reg_b magic addr m v) in
    let w1 = subst Turned h (first_tick-Turned steps behind stack esp m'.kernel w) in
    Run-Limits_from (state t) k r (state-Limits t w1)
