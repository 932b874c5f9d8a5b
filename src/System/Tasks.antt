-- ===== src/System/Tasks.antt =====
-- How processes start and end, and the limits of the kernel's state.
use orca_os.Base.{
  ℕ, zero, suc, ◌+◌, ◌≤◌, refl, arith, pos, if_cases, Option, none, some, update, ltb, leb, ◌==◌,
  ◌&&◌, not,
}
use orca_os.Paging.{map_program}
use orca_os.Process.{Pcb, Kernel, below, current_fd}
use orca_os.Process.Calls.{Events, Outcome, ret, waits, jumps}
use orca_os.Process.Tasks.{
  system_call_paging, last_active, register, create_pcb, is_null, after, close_open, free_fd,
  close_all, give_up, restore, sys_halt,
}
use orca_os.System.Calm.{set_fd-Calm}
use orca_os.System.Limits.{block, Limits, Calm-Limits, Within}
use orca_os.System.Calls.{call_close-Within}

register-small :
    (x : ℕ)
    → x ≤ 5
    → (i left : ℕ) (a : ℕ → ℕ) → ((j : ℕ) → a j ≤ 5)
    → (j : ℕ) → register x i left a j ≤ 5
unfolding register
register-small x h i zero a s j = s j
register-small x h i (suc left) a s j =
    if_cases (λ (b : ℕ → ℕ). b j ≤ 5) (a i == 0) (λ e. ground (arith, s j))
      (λ e. register-small x h (i + 1) left a s j)

-- No list of a block has a number above 5.
abbrev Small : (ℕ → Pcb) → Type 0
Small m = (a i : ℕ) → (m a).active_processes i ≤ 5

update-Small :
    (m : ℕ → Pcb) (a : ℕ) (p : Pcb)
    → Small m
    → ((i : ℕ) → p.active_processes i ≤ 5)
    → Small (update m a p)
update-Small m a p s h b i =
    if_cases (λ (q : Pcb). q.active_processes i ≤ 5) (a == b) (λ e. h i) (λ e. s b i)

create_pcb-Small : (k : Kernel) → k.process_number ≤ 5 → Small k.pcbs → Small (create_pcb k).0.pcbs
unfolding create_pcb
create_pcb-Small k h v =
    let a = below (k.process_number + 1) in
    let s = below (k.console.on_display + 1) in
    let u1 = update-Small k.pcbs a _ v (λ i. v a i) in
    let u2 =
      if_cases Small (ltb 2 k.process_number)
        (λ e. update-Small _ s _ u1 (register-small k.process_number h 0 4 _ (u1 s))) (λ e. u1) in
    update-Small _ a _ u2 (u2 a)

pub create_pcb-Limits :
    (k : Kernel)
    → k.process_number ≤ 5
    → Limits k
    → let r = create_pcb k in Limits (record (r.0) { current_pcb = r.1 })
unfolding create_pcb
create_pcb-Limits k h v = record {
  console = v.console;
  current = block (k.process_number + 1) (omega arith) refl;
  number = omega arith;
  recover = v.recover;
  frame = v.frame;
  numbers = λ a. ground (arith, v.numbers a);
  slots = create_pcb-Small k h v.slots;
  home = λ a. ground (arith, v.home a, v.console.shown);
}

pub system_call_paging-Limits :
    (p : Pcb) (k : Kernel) → p.process_num ≤ 5 → Limits k → Limits (system_call_paging p k)
unfolding system_call_paging map_program
system_call_paging-Limits p k h v = record {
  console = v.console;
  current = v.current;
  number = v.number;
  recover = v.recover;
  frame = omega arith;
  numbers = v.numbers;
  slots = v.slots;
  home = v.home;
}

give_up-Limits : (s : ℕ) (o : Option ℕ) (k : Kernel) → Limits k → Limits (give_up s o k)
unfolding give_up
give_up-Limits s none k v = record {
  console = v.console;
  current = v.current;
  number = omega arith;
  recover = v.recover;
  frame = v.frame;
  numbers = v.numbers;
  slots = v.slots;
  home = v.home;
}
give_up-Limits s (some i) k v = record {
  console = v.console;
  current = v.current;
  number = omega (arith, v.slots s i);
  recover = v.recover;
  frame = v.frame;
  numbers = λ a. ground (arith, v.numbers a, v.numbers s);
  slots = λ a j. ground (arith, v.slots a j, v.slots s j);
  home = λ a. ground (arith, v.home a, v.home s);
}

-- Another block becomes current.
with_current-Limits :
    (n e : ℕ) (k : Kernel)
    → n ≤ 6
    → Limits k
    → Limits (record k { current_pcb = below n; esp0 = e })
with_current-Limits n e k h v = record {
  console = v.console;
  current = block n h refl;
  number = v.number;
  recover = v.recover;
  frame = v.frame;
  numbers = v.numbers;
  slots = v.slots;
  home = v.home;
}

restore-Within : (k : Kernel) → Limits k → Within (restore k)
unfolding restore
restore-Within k v =
    let s = below ((k.pcbs k.current_pcb).parent_terminal + 1) in
    let o = last_active (k.pcbs s).active_processes 4 in
    let k1 = give_up s o k in
    let w = give_up-Limits s o k v in
    let p = k1.pcbs (below k1.process_number) in
    system_call_paging-Limits p _ (w.numbers (below k1.process_number))
      (with_current-Limits k1.process_number (below p.process_num) k1 w.number w)

after-Within :
    (o : Outcome) (next : Kernel → Outcome)
    → Within o
    → ((k : Kernel) → Limits k → Within (next k))
    → Within (after o next)
after-Within (ret k buf r) next w h = h k w
after-Within waits next w h = tt
after-Within (jumps a) next w h = tt

close_open-Within : (ev : Events) (i : ℕ) (k : Kernel) → Limits k → Within (close_open ev i k)
unfolding close_open
close_open-Within ev i k v =
    let d = current_fd i k in
    if_cases Within ((d.flags == 1) && not (is_null d.close))
      (λ e. call_close-Within d.close ev (pos i) k v) (λ e. v)

close_all-Within :
    (ev : Events) (i left : ℕ) (k : Kernel) → Limits k → Within (close_all ev i left k)
unfolding close_all
close_all-Within ev i zero k v = v
close_all-Within ev i (suc left) k v =
    after-Within (close_open ev i k) _ (close_open-Within ev i k v) (λ k1 w.
      close_all-Within ev (i + 1) left (free_fd i k1) (Calm-Limits k1 _ (set_fd-Calm i _ k1) w))

pub sys_halt-Within : (ev : Events) (k : Kernel) → Limits k → Within (sys_halt ev k)
unfolding sys_halt
sys_halt-Within ev k v =
    if_cases Within (leb k.process_number 2) (λ e. v)
      (λ e. after-Within (close_all ev 0 8 k) restore (close_all-Within ev 0 8 k v) restore-Within)
