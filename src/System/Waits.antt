-- ===== src/System/Waits.antt =====
-- Which system calls may wait for a device: only the read.
use orca_os.Base.{
  ℕ, zero, suc, ◌+◌, ◌≡◌, refl, subst, arith, ℤ, pos, negsuc, Bool, true, false, if_cases, Option,
  none, some, Memory, ltb, leb, ltb_ℤ, to_i32, ◌==◌, ◌&&◌, ◌||◌, not, minus_one,
}
use orca_os.Process.{Driver, null, no_op, terminal, rtc, directory, file, raw, Kernel, current_fd}
use orca_os.Process.Execute.{spills, sys_execute}
use orca_os.Process.Calls.{
  Events, Outcome, ret, waits, jumps, not_open, call_write, sys_write, call_close, sys_close,
  ninth_flags,
}
use orca_os.Process.Tasks.{
  is_null, after, close_open, free_fd, close_all, restore, check_process_num, sys_halt,
}
use orca_os.Scheduler.{Turn, runs, returns, entered, start_first_shell}
use orca_os.System.{
  Request, Ending, back, started, waiting, Call, halt, execute, read, write, open_, close, getargs,
  vidmap, set_handler, sigreturn, of_outcome, of_turn, halted, strayed, unless_spilled, after_shell,
  system_halt, is_own, call,
}

abbrev pub is_waiting : Ending → Bool
is_waiting waiting = true
is_waiting _ = false

abbrev Settled : Outcome → Type 0
Settled o = is_waiting (of_outcome o) ≡ false

abbrev NoWait : Option Ending → Type 0
NoWait none = Unit {0}
NoWait (some e) = is_waiting e ≡ false

call_write-Settled :
    (d : Driver) (fd : ℤ) (buf : Memory) (n : ℤ) (k : Kernel) → Settled (call_write d fd buf n k)
unfolding call_write
call_write-Settled terminal fd buf n k = refl
call_write-Settled no_op fd buf n k = refl
call_write-Settled rtc fd buf n k = refl
call_write-Settled directory fd buf n k = refl
call_write-Settled file fd buf n k = refl
call_write-Settled null fd buf n k = refl
call_write-Settled (raw a) fd buf n k = refl

sys_write-Settled :
    (fd : ℤ) (buf : Option Memory) (n : ℤ) (k : Kernel) → Settled (sys_write fd buf n k)
unfolding sys_write
sys_write-Settled fd none n k = refl
sys_write-Settled fd (some buf) n k =
    if_cases Settled (not_open fd k) (λ e. refl) (λ e. call_write-Settled _ fd buf n k)

call_close-Settled :
    (d : Driver) (ev : Events) (fd : ℤ) (k : Kernel) → Settled (call_close d ev fd k)
unfolding call_close
call_close-Settled terminal ev fd k = refl
call_close-Settled no_op ev fd k = refl
call_close-Settled rtc ev fd k = refl
call_close-Settled directory ev fd k = refl
call_close-Settled file ev fd k = refl
call_close-Settled null ev fd k = refl
call_close-Settled (raw a) ev fd k = refl

sys_close-Settled : (ev : Events) (fd : ℤ) (k : Kernel) → Settled (sys_close ev fd k)
unfolding sys_close
sys_close-Settled ev (negsuc n) k = refl
sys_close-Settled ev (pos n) k =
    if_cases Settled (ltb n 2 || ltb 8 n) (λ e. refl)
      (λ e.
        if_cases Settled (n == 8)
          (λ f. if_cases Settled (ninth_flags k == 0) (λ g. refl) (λ g. refl))
          (λ f.
            if_cases Settled ((current_fd n k).flags == 0) (λ g. refl)
              (λ g. call_close-Settled _ ev (pos n) k)))

after-Settled :
    (o : Outcome) (next : Kernel → Outcome)
    → Settled o
    → ((k : Kernel) → Settled (next k))
    → Settled (after o next)
after-Settled (ret k buf r) next w h = h k
after-Settled waits next w h = w
after-Settled (jumps a) next w h = refl

close_open-Settled : (ev : Events) (i : ℕ) (k : Kernel) → Settled (close_open ev i k)
unfolding close_open
close_open-Settled ev i k =
    let d = current_fd i k in
    if_cases Settled ((d.flags == 1) && not (is_null d.close))
      (λ e. call_close-Settled d.close ev (pos i) k) (λ e. refl)

close_all-Settled : (ev : Events) (i left : ℕ) (k : Kernel) → Settled (close_all ev i left k)
unfolding close_all
close_all-Settled ev i zero k = refl
close_all-Settled ev i (suc left) k =
    after-Settled (close_open ev i k) _ (close_open-Settled ev i k)
      (λ k1. close_all-Settled ev (i + 1) left (free_fd i k1))

sys_halt-Settled : (ev : Events) (k : Kernel) → Settled (sys_halt ev k)
unfolding sys_halt restore
sys_halt-Settled ev k =
    if_cases Settled (leb k.process_number 2) (λ e. refl)
      (λ e. after-Settled (close_all ev 0 8 k) restore (close_all-Settled ev 0 8 k) (λ l. refl))

halted-NoWait : (status : ℕ) (o : Outcome) → Settled o → is_waiting (halted status o) ≡ false
unfolding halted
halted-NoWait status (ret k buf r) w = refl
halted-NoWait status waits w = w
halted-NoWait status (jumps a) w = refl

strayed-NoWait : (o : Outcome) → Settled o → is_waiting (strayed o) ≡ false
strayed-NoWait (ret k buf r) w = refl
strayed-NoWait waits w = w
strayed-NoWait (jumps a) w = refl

spilled-NoWait :
    (k : Kernel) (e : Ending) → is_waiting e ≡ false → is_waiting (unless_spilled k e) ≡ false
spilled-NoWait k e w =
    if_cases (λ e. is_waiting e ≡ false) (spills (k.pcbs k.current_pcb)) (λ s. refl) (λ s. w)

after_shell-NoWait : (ev : Events) (o : Option Turn) → NoWait (after_shell ev o)
unfolding after_shell
after_shell-NoWait ev none = tt
after_shell-NoWait ev (some (runs k r)) = spilled-NoWait k (started k r) refl
after_shell-NoWait ev (some (returns k)) =
    spilled-NoWait k (strayed (sys_halt ev k))
      (strayed-NoWait (sys_halt ev k) (sys_halt-Settled ev k))

of_turn-NoWait : (o : Option Turn) → NoWait (of_turn o)
of_turn-NoWait none = tt
of_turn-NoWait (some (runs k r)) = spilled-NoWait k (started k r) refl
of_turn-NoWait (some (returns k)) = spilled-NoWait k (back k none minus_one) refl

system_halt-NoWait : (q : Request) (k : Kernel) → NoWait (system_halt q k)
unfolding system_halt
system_halt-NoWait q k =
    if_cases NoWait (ltb_ℤ (pos 3) (to_i32 (check_process_num k)))
      (λ e. halted-NoWait q.status (sys_halt q.events k) (sys_halt-Settled q.events k))
      (λ e. after_shell-NoWait q.events (start_first_shell q.fuel q.behind q.stack q.esp k))

waits_alone :
    (c : Call) (o : Option Ending) (e : Ending)
    → NoWait o
    → o ≡ some e
    → is_waiting e ≡ true
    → c ≡ read
waits_alone c o e w h x = absurd (ground (arith, subst NoWait h w, x))

-- A call that waits is a read.
pub call-waits :
    (c : Call) (q : Request) (k : Kernel) (e : Ending)
    → call c q k ≡ some e
    → is_waiting e ≡ true
    → c ≡ read
unfolding call
call-waits halt q k e = waits_alone halt _ e (system_halt-NoWait q k)
call-waits execute q k e =
    waits_alone execute _ e
      (of_turn-NoWait (entered q.esp (sys_execute q.fuel q.command q.stack k)))
call-waits read q k e = λ h x. refl
call-waits write q k e = waits_alone write _ e (sys_write-Settled q.fd q.buf q.nbytes k)
call-waits open_ q k e = waits_alone open_ _ e refl
call-waits close q k e = waits_alone close _ e (sys_close-Settled q.events q.fd k)
call-waits getargs q k e =
    waits_alone getargs _ e
      (if_cases (λ e. is_waiting e ≡ false) (is_own q.buf_at q.nbytes) (λ s. refl) (λ s. refl))
call-waits vidmap q k e = waits_alone vidmap _ e refl
call-waits set_handler q k e = waits_alone set_handler _ e refl
call-waits sigreturn q k e = waits_alone sigreturn _ e refl
