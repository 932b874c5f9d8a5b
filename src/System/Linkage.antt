-- ===== src/System/Linkage.antt =====
-- What system_halt decides by, and how system calls end.
use orca_os.Base.{
  negsuc, ℕ, ◌^◌, Bool-cases, inl, inr, ◌+◌, ◌-◌, ◌≤◌, ◌<◌, ◌≡◌, refl, arith, pos, minus_one,
  pos_part, if_cases, Option, none, some, Memory, ltb, ltb_ℤ, to_i32, ◌==◌, ◌&&◌, ◌||◌, not, false,
  true, Bool, ℤ, zero, suc, ◌∙◌, if◌then◌else◌, ap,
}
use orca_os.Process.{Kernel, below}
use orca_os.Process.Tasks.{last_active, check_process_num, sys_halt}
use orca_os.Process.Execute.{name_end, sys_execute, shell}
use orca_os.Process.Execute.Total.{sys_execute_total}
use orca_os.Scheduler.{
  Turn, runs, returns, entered, enter_program, system_execute, start_first_shell,
}
use orca_os.System.Waits.{is_waiting, call-waits}
use orca_os.System.{
  Request, Ending, back, Call, halt, execute, read, write, open_, close, getargs, vidmap,
  set_handler, sigreturn, of_turn, halted, after_shell, system_halt, call, system_call_table,
  table_entry, call_entry, system_call_linkage,
}

-- One of the four numbers is not 0.
abbrev pub any_active : (ℕ → ℕ) → Bool
any_active a = not (a 0 == 0) || not (a 1 == 0) || not (a 2 == 0) || not (a 3 == 0)

-- The list of the terminal on display.
abbrev pub displayed : Kernel → ℕ → ℕ
displayed k = (k.pcbs (below (k.console.on_display + 1))).active_processes

check_process_num_lem :
    (k : Kernel)
    → check_process_num k
      ≡ (if any_active (displayed k) then k.process_number else k.console.on_display)
unfolding check_process_num last_active
check_process_num_lem k = ground arith

-- The fuel suffices for the command "shell", whatever comes of it.
start_first_shell_total :
    (fuel z : ℕ) (behind stack : Memory) (esp : ℕ) (k : Kernel)
    → behind z ≡ 0
    → z + 6 < fuel
    → (t : Turn) × (start_first_shell fuel behind stack esp k ≡ some t)
unfolding start_first_shell system_execute name_end
start_first_shell_total fuel z behind stack esp k h fits =
    let k1 = record k {
      current_pcb = 0;
      schedule = record (k.schedule) { recover_num = k.process_number };
      process_number = k.console.on_display;
    } in
    let g =
      sys_execute_total fuel (z + 6) (shell behind) stack k1 (ground (arith, h)) (omega arith)
        fits in
    (enter_program esp (g.0, g.1), ap (entered esp) g.2)

-- With one of three terminals shown, `system_halt` ends the current process just if the list of
-- the terminal on display has an active process and more than three processes are counted; which
-- terminal the current process belongs to makes no difference. Else the base shell is started
-- again, which gives a result whatever follows the string "shell", if that has a zero and the fuel
-- reaches it; only if no shell could be started, sys_halt runs after all, and control goes astray.
pub system_halt_lem :
    (q : Request) (z : ℕ) (k : Kernel)
    → q.behind z ≡ 0
    → z + 6 < q.fuel
    → k.console.on_display ≤ 2
    → k.process_number < 2 ^ 31
    → (t : Turn) × (start_first_shell q.fuel q.behind q.stack q.esp k ≡ some t)
      × (system_halt q k ≡ (
          if any_active (displayed k) && ltb 3 k.process_number
          then some (halted q.status (sys_halt q.events k))
          else after_shell q.events (some t)))
unfolding system_halt
system_halt_lem q z k h fits shown small =
    let w = start_first_shell_total q.fuel z q.behind q.stack q.esp k h fits in
    let same : ltb_ℤ (pos 3) (to_i32 (check_process_num k))
        ≡ (any_active (displayed k) && ltb 3 k.process_number) =
      ground (arith, check_process_num_lem k, shown, small) in
    (w.0, w.1, rw (same, w.1) refl)

-- What becomes of a call.
abbrev Ends : Option Ending → Type 0
Ends o = (e : Ending) × (o ≡ some e)

after_shell-Ends : (q : Request) (t : Turn) → Ends (after_shell q.events (some t))
unfolding after_shell
after_shell-Ends q (runs k r) = (_, refl)
after_shell-Ends q (returns k) = (_, refl)

system_halt-Ends :
    (q : Request) (z : ℕ) (k : Kernel) → q.behind z ≡ 0 → z + 6 < q.fuel → Ends (system_halt q k)
unfolding system_halt
system_halt-Ends q z k h fits =
    let w = start_first_shell_total q.fuel z q.behind q.stack q.esp k h fits in
    if_cases Ends (ltb_ℤ (pos 3) (to_i32 (check_process_num k))) (λ e. (_, refl))
      (λ e. rw w.1 (after_shell-Ends q w.0))

-- A command, if there is one, with a zero behind its name, which the fuel reaches.
abbrev pub Bounded : ℕ → Option Memory → Type 0
Bounded fuel none = Unit {0}
Bounded fuel (some c) = (z : ℕ) × (c z ≡ 0) × (name_end c 0 31 < z) × (z < fuel)

of_turn-Ends : (t : Turn) → Ends (of_turn (some t))
of_turn-Ends (runs k r) = (_, refl)
of_turn-Ends (returns k) = (_, refl)

execute-Ends :
    (esp fuel : ℕ) (command : Option Memory) (stack : Memory) (k : Kernel)
    → Bounded fuel command
    → Ends (of_turn (entered esp (sys_execute fuel command stack k)))
unfolding sys_execute
execute-Ends esp fuel none stack k b = of_turn-Ends (enter_program esp (k, minus_one))
execute-Ends esp fuel (some c) stack k (z, h, behind, fits) =
    let g = sys_execute_total fuel z c stack k h behind fits in
    rw g.2 (of_turn-Ends (enter_program esp (g.0, g.1)))

call-Ends :
    (c : Call) (q : Request) (z : ℕ) (k : Kernel)
    → q.behind z ≡ 0
    → z + 6 < q.fuel
    → Bounded q.fuel q.command
    → Ends (call c q k)
unfolding call
call-Ends halt q z k h fits b = system_halt-Ends q z k h fits
call-Ends execute q z k h fits b = execute-Ends q.esp q.fuel q.command q.stack k b
call-Ends read q z k h fits b = (_, refl)
call-Ends write q z k h fits b = (_, refl)
call-Ends open_ q z k h fits b = (_, refl)
call-Ends close q z k h fits b = (_, refl)
call-Ends getargs q z k h fits b = (_, refl)
call-Ends vidmap q z k h fits b = (_, refl)
call-Ends set_handler q z k h fits b = (_, refl)
call-Ends sigreturn q z k h fits b = (_, refl)

call_entry-Ends :
    (c : Option Call) (i : ℕ) (q : Request) (z : ℕ) (k : Kernel)
    → q.behind z ≡ 0
    → z + 6 < q.fuel
    → Bounded q.fuel q.command
    → Ends (call_entry c i q k)
call_entry-Ends none i q z k h fits b = (_, refl)
call_entry-Ends (some c) i q z k h fits b = call-Ends c q z k h fits b

-- One of 1 to 10.
abbrev pub is_number : ℤ → Bool
is_number n = ltb_ℤ (pos 0) n && not (ltb_ℤ (pos 10) n)

-- The number that programs make each call by.
abbrev pub number_of : Call → ℕ
number_of halt = 1
number_of execute = 2
number_of read = 3
number_of write = 4
number_of open_ = 5
number_of close = 6
number_of getargs = 7
number_of vidmap = 8
number_of set_handler = 9
number_of sigreturn = 10

-- The entry of the table at `n` is the call with the number `n + 1`.
entry_in_table :
    (n : ℕ)
    → n < 10
    → (c : Call) × (table_entry system_call_table n ≡ some c) × (number_of c ≡ n + 1)
entry_in_table zero h = (halt, refl, omega arith)
entry_in_table (suc zero) h = (execute, refl, omega arith)
entry_in_table (suc (suc zero)) h = (read, refl, omega arith)
entry_in_table (suc (suc (suc zero))) h = (write, refl, omega arith)
entry_in_table (suc (suc (suc (suc zero)))) h = (open_, refl, omega arith)
entry_in_table (suc (suc (suc (suc (suc zero))))) h = (close, refl, omega arith)
entry_in_table (suc (suc (suc (suc (suc (suc zero)))))) h = (getargs, refl, omega arith)
entry_in_table (suc (suc (suc (suc (suc (suc (suc zero))))))) h = (vidmap, refl, omega arith)
entry_in_table (suc (suc (suc (suc (suc (suc (suc (suc zero)))))))) h =
    (set_handler, refl, omega arith)
entry_in_table (suc (suc (suc (suc (suc (suc (suc (suc (suc zero))))))))) h =
    (sigreturn, refl, omega arith)
entry_in_table (suc (suc (suc (suc (suc (suc (suc (suc (suc (suc n)))))))))) h =
    absurd (omega arith)

positive : (a : ℤ) (n : ℕ) → ltb_ℤ (pos 0) a ≡ true → n ≡ pos_part a - 1 + 1 → a ≡ pos n
positive (pos m) n h e = ap pos (ground (arith, h, e))
positive (negsuc m) n h e = absurd (ground (arith, h))

-- For a number outside 1 to 10 the program gets -1 and the kernel is as it was. For one of 1 to 10
-- the call with that number is made, and no address from behind the table is called. What becomes
-- of it is determined: the program goes on, or another starts, or control goes where a descriptor's
-- pointer leads, or the call stores where the state is not modelled; only call 3, the read, may wait
-- for a device. What sys_execute reads has a zero behind the name of the program, and the string
-- "shell" one behind it; the fuel reaches both.
pub system_call_linkage_lem :
    (q : Request) (z : ℕ) (k : Kernel)
    → q.behind z ≡ 0
    → z + 6 < q.fuel
    → Bounded q.fuel q.command
    → (e : Ending) × (system_call_linkage q k ≡ some e)
      × (is_number q.eax ≡ false → e ≡ back k none minus_one)
      × (is_number q.eax ≡ true → (c : Call) × (q.eax ≡ pos (number_of c)) × (call c q k ≡ some e))
      × (is_waiting e ≡ true → q.eax ≡ pos 3)
unfolding system_call_linkage
system_call_linkage_lem q z k h fits b = elim (Bool-cases (ltb_ℤ (pos 0) q.eax)) [
  | inr e ↦
      (back k none minus_one, rw e refl, λ n. refl, λ n. absurd (ground (arith, n, e)), λ w. cc)
  | inl e ↦ elim (Bool-cases (ltb_ℤ (pos 10) q.eax)) [
    | inl f ↦ (
      back k none minus_one,
      rw (e, f) refl,
      λ n. refl,
      λ n. absurd (ground (arith, n, e, f)),
      λ w. cc,
    )
    | inr f ↦
        (let t = entry_in_table (pos_part q.eax - 1) (ground (arith, e, f)) in
          let w = call-Ends t.0 q z k h fits b in
          let number = positive q.eax (number_of t.0) e t.2 in
          (
            w.0,
            rw (e, f) (ap (λ o. call_entry o (pos_part q.eax - 1) q k) t.1 ∙ w.1),
            λ n. absurd (ground (arith, n, e, f)),
            λ n. (t.0, number, w.1),
            λ v. number ∙ ap (λ c. pos (number_of c)) (call-waits t.0 q k w.0 w.1 v),
          ))
  ]
]
