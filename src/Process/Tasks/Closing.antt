-- ===== src/Process/Tasks/Closing.antt =====
-- That the loop of sys_halt which closes the descriptors ends, and what it leaves alone.
use orca_os.Base.{
  ℤ, ℕ, zero, suc, ◌+◌, ◌≤◌, ◌<◌, ◌≡◌, refl, ap, ◌∙◌, arith, pos, minus_one, Bool, true, false, not,
  ◌==◌, ◌&&◌, if_cases, Bool-cases, inl, inr, none,
}
use orca_os.Rtc.{rtc_close}
use orca_os.Terminal.{terminal_close}
use orca_os.Process.{Driver, null, no_op, terminal, rtc, directory, file, raw, Kernel, current_fd}
use orca_os.Process.Drivers.{file_close, directory_close}
use orca_os.Process.Calls.{Events, Outcome, ret, call_close}
use orca_os.Process.Tasks.{is_null, after, close_open, free_fd, close_all}

-- A pointer that leads to none of the drivers.
abbrev pub is_raw : Driver → Bool
is_raw (raw a) = true
is_raw _ = false

-- `k1` runs the same process, with the same `close` pointers, what was free is free, and the
-- active processes and the terminals of all blocks are the same.
pub record Closed (k k1 : Kernel) : Type 0 where
  pub same : k1.current_pcb ≡ k.current_pcb
  pub pointers : (j : ℕ) → (current_fd j k1).close ≡ (current_fd j k).close
  pub free : (j : ℕ) → (current_fd j k).flags ≡ 0 → (current_fd j k1).flags ≡ 0
  pub slots : (a : ℕ) → (k1.pcbs a).active_processes ≡ (k.pcbs a).active_processes
  pub home : (a : ℕ) → (k1.pcbs a).parent_terminal ≡ (k.pcbs a).parent_terminal

Closed-refl : (k : Kernel) → Closed k k
Closed-refl k = record {
  same = refl;
  pointers = λ j. refl;
  free = λ j h. h;
  slots = λ a. refl;
  home = λ a. refl;
}

Closed-trans : (k l m : Kernel) → Closed k l → Closed l m → Closed k m
Closed-trans k l m v w = record {
  same = w.same ∙ v.same;
  pointers = λ j. w.pointers j ∙ v.pointers j;
  free = λ j h. w.free j (v.free j h);
  slots = λ a. w.slots a ∙ v.slots a;
  home = λ a. w.home a ∙ v.home a;
}

-- The call returns.
abbrev Returns : Kernel → Outcome → Type 0
Returns k o = (k1 : Kernel) × (r : ℤ) × (o ≡ ret k1 none r) × Closed k k1

directory_close-Closed : (i : ℕ) (k : Kernel) → Closed k (directory_close (pos i) k).0
unfolding directory_close
directory_close-Closed i k = record {
  same = ground arith;
  pointers = λ j. ground arith;
  free = λ j h. ground arith;
  slots = λ a. ground arith;
  home = λ a. ground arith;
}

file_close-Closed : (i : ℕ) (k : Kernel) → Closed k (file_close (pos i) k).0
unfolding file_close
file_close-Closed i k = record {
  same = ground arith;
  pointers = λ j. ground arith;
  free = λ j h. ground arith;
  slots = λ a. ground arith;
  home = λ a. ground arith;
}

free_fd-Closed : (i : ℕ) (k : Kernel) → Closed k (free_fd i k)
free_fd-Closed i k = record {
  same = refl;
  pointers = λ j. ground arith;
  free = λ j h. ground arith;
  slots = λ a. ground arith;
  home = λ a. ground arith;
}

call_close-Returns :
    (d : Driver) (ev : Events) (i : ℕ) (k : Kernel)
    → is_null d ≡ false
    → is_raw d ≡ false
    → Returns k (call_close d ev (pos i) k)
unfolding call_close
call_close-Returns terminal ev i k n r = (
  record k { console = (terminal_close k.console).0 },
  (terminal_close k.console).1,
  refl,
  record {
    same = refl;
    pointers = λ j. refl;
    free = λ j h. h;
    slots = λ a. refl;
    home = λ a. refl;
  },
)
call_close-Returns no_op ev i k n r = (k, minus_one, refl, Closed-refl k)
call_close-Returns rtc ev i k n r = (
  record k { clock = (rtc_close ev.reg_a k.clock).0 },
  (rtc_close ev.reg_a k.clock).1,
  refl,
  record {
    same = refl;
    pointers = λ j. refl;
    free = λ j h. h;
    slots = λ a. refl;
    home = λ a. refl;
  },
)
call_close-Returns directory ev i k n r =
    ((directory_close (pos i) k).0, (directory_close (pos i) k).1, refl, directory_close-Closed i k)
call_close-Returns file ev i k n r =
    ((file_close (pos i) k).0, (file_close (pos i) k).1, refl, file_close-Closed i k)
call_close-Returns null ev i k n r = cc
call_close-Returns (raw a) ev i k n r = cc

close_open-Returns :
    (ev : Events) (i : ℕ) (k : Kernel)
    → is_raw (current_fd i k).close ≡ false
    → Returns k (close_open ev i k)
unfolding close_open
close_open-Returns ev i k r =
    if_cases (Returns k) (((current_fd i k).flags == 1) && not (is_null (current_fd i k).close))
      (λ h. call_close-Returns (current_fd i k).close ev i k (ground arith) r)
      (λ h. (k, pos 0, refl, Closed-refl k))

pub close_all-Returns :
    (ev : Events) (i left : ℕ) (k : Kernel)
    → ((j : ℕ) → i ≤ j → j < i + left → is_raw (current_fd j k).close ≡ false)
    → (k1 : Kernel) × (close_all ev i left k ≡ ret k1 none (pos 0))
      × Closed k k1
      × ((j : ℕ) → i ≤ j → j < i + left → (current_fd j k1).flags ≡ 0)
unfolding close_all
close_all-Returns ev i zero k h = (k, refl, Closed-refl k, λ j p q. absurd (omega arith))
close_all-Returns ev i (suc left) k h =
    let (k1, r, e, v) = close_open-Returns ev i k (h i (omega arith) (omega arith)) in
    let k2 = free_fd i k1 in
    let v2 = Closed-trans k k1 k2 v (free_fd-Closed i k1) in
    let (k3, e3, v3, f3) =
      close_all-Returns ev (i + 1) left k2
        (λ j p q. ap is_raw (v2.pointers j) ∙ h j (omega arith) (omega arith)) in
    (
      k3,
      ap (λ o. after o (λ k1. close_all ev (i + 1) left (free_fd i k1))) e ∙ e3,
      Closed-trans k k2 k3 v2 v3,
      λ j p q. elim (Bool-cases (i == j)) [
        | inl s ↦ v3.free j (ground arith)
        | inr s ↦ f3 j (ground arith) (omega arith)
      ],
    )
