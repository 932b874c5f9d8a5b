-- ===== src/System/Endings.antt =====
-- How system calls end, and the limits of the kernel's state.
use orca_os.Base.{
  ℕ, ◌+◌, ◌≡◌, arith, minus_one, ℤ, pos, pos_part, if_cases, Option, none, some, Memory, ltb, ltb_ℤ,
  to_i32, ◌==◌, ◌-◌, ◌||◌, ◌*◌, ◌/◌, ◌%◌, ◌^◌, for_range_inv,
}
use orca_os.Process.{Kernel}
use orca_os.Process.Calls.{Events, Outcome, ret, waits, jumps}
use orca_os.Process.Tasks.{check_process_num, sys_halt}
use orca_os.Process.Execute.{spills, sys_vidmap, store_user}
use orca_os.Paging.{Pages, system_call_vidmap}
use orca_os.Scheduler.{Turn, runs, returns, start_first_shell}
use orca_os.System.{
  Request, Ending, back, started, waiting, jumped, stray, Call, halt, execute, read, write, open_,
  close, getargs, vidmap, set_handler, sigreturn, of_outcome, of_turn, halted, strayed, after_shell,
  system_halt, call, system_call_linkage, sys_set_handler, sys_sigreturn, table_entry, call_entry,
  system_call_table, unfollowed, unless_spilled, is_own, read_into,
}
use orca_os.System.Limits.{Limits, Calm-Limits, with_console-Limits, Within}
use orca_os.System.Calls.{
  sys_read-Within, sys_write-Within, sys_close-Within, sys_open-Limits, sys_getargs-Limits,
}
use orca_os.System.Tasks.{sys_halt-Within}
use orca_os.System.Programs.{sys_execute-Executed, frames-Calm}
use orca_os.System.Turns.{Turned, entered-Turned, start_first_shell-Turned}

-- The call leaves the kernel within the limits, if it leaves it.
abbrev pub Ended : Option Ending → Type 0
Ended none = Unit {0}
Ended (some (back k buf r)) = Limits k
Ended (some (started k r)) = Limits k
Ended (some waiting) = Unit {0}
Ended (some (jumped a)) = Unit {0}
Ended (some (stray k)) = Limits k
Ended (some unfollowed) = Unit {0}

of_outcome-Ended : (o : Outcome) → Within o → Ended (some (of_outcome o))
of_outcome-Ended (ret k buf r) w = w
of_outcome-Ended waits w = tt
of_outcome-Ended (jumps a) w = tt

halted-Ended : (status : ℕ) (o : Outcome) → Within o → Ended (some (halted status o))
unfolding halted
halted-Ended status (ret k buf r) w = w
halted-Ended status waits w = tt
halted-Ended status (jumps a) w = tt

strayed-Ended : (o : Outcome) → Within o → Ended (some (strayed o))
strayed-Ended (ret k buf r) w = w
strayed-Ended waits w = tt
strayed-Ended (jumps a) w = tt

unless_spilled-Ended :
    (k : Kernel) (e : Ending) → Ended (some e) → Ended (some (unless_spilled k e))
unless_spilled-Ended k e w =
    if_cases (λ e. Ended (some e)) (spills (k.pcbs k.current_pcb)) (λ s. tt) (λ s. w)

read_into-Ended :
    (buf : Option Memory) (q : Request) (k : Kernel) → Limits k → Ended (some (read_into buf q k))
read_into-Ended none q k v = of_outcome-Ended _ (sys_read-Within q.events q.fd none q.nbytes k v)
read_into-Ended (some buf) q k v =
    if_cases (λ e. Ended (some e)) (is_own q.buf_at q.nbytes)
      (λ e. of_outcome-Ended _ (sys_read-Within q.events q.fd (some buf) q.nbytes k v)) (λ e. tt)

after_shell-Ended : (ev : Events) (o : Option Turn) → Turned o → Ended (after_shell ev o)
unfolding after_shell
after_shell-Ended ev none w = tt
after_shell-Ended ev (some (runs k r)) w = unless_spilled-Ended k (started k r) w
after_shell-Ended ev (some (returns k)) w =
    unless_spilled-Ended k (strayed (sys_halt ev k))
      (strayed-Ended (sys_halt ev k) (sys_halt-Within ev k w))

of_turn-Ended : (o : Option Turn) → Turned o → Ended (of_turn o)
of_turn-Ended none w = tt
of_turn-Ended (some (runs k r)) w = unless_spilled-Ended k (started k r) w
of_turn-Ended (some (returns k)) w = unless_spilled-Ended k (back k none minus_one) w

system_halt-Ended : (q : Request) (k : Kernel) → Limits k → Ended (system_halt q k)
unfolding system_halt
system_halt-Ended q k v =
    if_cases Ended (ltb_ℤ (pos 3) (to_i32 (check_process_num k)))
      (λ e. halted-Ended q.status (sys_halt q.events k) (sys_halt-Within q.events k v))
      (λ e.
        after_shell-Ended q.events (start_first_shell q.fuel q.behind q.stack q.esp k)
          (start_first_shell-Turned q.fuel q.behind q.stack q.esp k v))

-- The text on the screen is not part of the limits.
pub with_video-Limits :
    (m : Memory) (k : Kernel)
    → Limits k
    → Limits (record k {
      console = record (k.console) { screen = record (k.console.screen) { mem = m } };
    })
with_video-Limits m k v =
    let w = v.console in
    with_console-Limits (record (k.console) { screen = record (k.console.screen) { mem = m } }) k
      (record {
        shown = w.shown;
        fits = w.fits;
        cursor = record { column = w.cursor.column; row = w.cursor.row };
        saved_columns = w.saved_columns;
        saved_rows = w.saved_rows;
        flags = w.flags;
      })
      v

-- A byte stored by the kernel for a program, in its memory or on the screen.
store_user-Limits : (a c : ℕ) (k : Kernel) → Limits k → Limits (store_user a c k)
unfolding store_user
store_user-Limits a c k v =
    if_cases Limits (ltb a 0x8400000) (λ e. Calm-Limits k _ (frames-Calm _ k) v)
      (λ e. with_video-Limits _ k v)

with_pages-Limits :
    (p : Pages) (k : Kernel)
    → (p.directory 32).upper_address ≡ (k.pages.directory 32).upper_address
    → Limits k
    → Limits (record k { pages = p })
with_pages-Limits p k e v = record {
  console = v.console;
  current = v.current;
  number = v.number;
  recover = v.recover;
  frame = omega (arith, e, v.frame);
  numbers = v.numbers;
  slots = v.slots;
  home = v.home;
}

vidmap-frame :
    (p : Pages)
    → ((system_call_vidmap p).directory 32).upper_address ≡ (p.directory 32).upper_address
unfolding system_call_vidmap
vidmap-frame p = ground arith

sys_vidmap-Limits : (start : ℕ) (k : Kernel) → Limits k → Limits (sys_vidmap start k).0
unfolding sys_vidmap
sys_vidmap-Limits start k v =
    if_cases (λ (r : Kernel × ℤ). Limits r.0)
      ((start == 0) || ltb start 0x8000000 || ltb 0x8400000 start) (λ e. v)
      (λ e.
        for_range_inv (λ i l. Limits l)
          (λ i. store_user (start + i) (0x8400000 / 2 ^ (8 * i) % 2 ^ 8)) 4 0 4 _
          (λ i l p q w. store_user-Limits (start + i) _ l w) (omega arith)
          (with_pages-Limits (system_call_vidmap k.pages) k (vidmap-frame k.pages) v))

call-Ended : (c : Call) (q : Request) (k : Kernel) → Limits k → Ended (call c q k)
unfolding call sys_set_handler sys_sigreturn
call-Ended halt q k v = system_halt-Ended q k v
call-Ended execute q k v =
    of_turn-Ended _ (entered-Turned q.esp _ (sys_execute-Executed q.fuel q.command q.stack k v))
call-Ended read q k v = read_into-Ended q.buf q k v
call-Ended write q k v = of_outcome-Ended _ (sys_write-Within q.fd q.buf q.nbytes k v)
call-Ended open_ q k v = sys_open-Limits q.events q.name k v
call-Ended close q k v = of_outcome-Ended _ (sys_close-Within q.events q.fd k v)
call-Ended getargs q k v =
    if_cases (λ e. Ended (some e)) (is_own q.buf_at q.nbytes)
      (λ e. sys_getargs-Limits q.args q.nbytes k v) (λ e. tt)
call-Ended vidmap q k v = sys_vidmap-Limits q.screen_start k v
call-Ended set_handler q k v = v
call-Ended sigreturn q k v = v

call_entry-Ended :
    (c : Option Call) (i : ℕ) (q : Request) (k : Kernel) → Limits k → Ended (call_entry c i q k)
call_entry-Ended none i q k v = tt
call_entry-Ended (some c) i q k v = call-Ended c q k v

pub system_call_linkage-Ended :
    (q : Request) (k : Kernel) → Limits k → Ended (system_call_linkage q k)
unfolding system_call_linkage
system_call_linkage-Ended q k v =
    if_cases Ended (ltb_ℤ (pos 0) q.eax)
      (λ e.
        if_cases Ended (ltb_ℤ (pos 10) q.eax) (λ f. v)
          (λ f. call_entry-Ended (table_entry system_call_table (pos_part q.eax - 1)) _ q k v))
      (λ e. v)
