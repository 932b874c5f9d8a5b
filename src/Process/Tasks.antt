-- ===== src/Process/Tasks.antt =====
-- Processes that come and go: create_pcb, sys_halt and check_process_num of
-- student-distrib/system_call.c.
pub mod Closing
pub mod Halt
use orca_os.Base.{
  ℕ, zero, suc, ◌+◌, ◌*◌, ◌%◌, ◌^◌, pos, minus_one, Bool, true, false, not, ltb, leb, ◌==◌, ◌&&◌,
  if◌then◌else◌, Option, none, some, update, for_range, u32, sub32,
}
use orca_os.Process.{
  Driver, null, no_op, terminal, Fd, Pcb, Kernel, eight_kb, eight_mb, below, current_fd, set_fd,
}
use orca_os.Paging.{map_program}
use orca_os.Process.Calls.{Events, Outcome, ret, waits, jumps, call_close}

-- `system_call_paging(pcb)`
unfoldable pub system_call_paging : Pcb → Kernel → Kernel
system_call_paging p k = record k { pages = map_program p.process_num k.pages }

-- The last of the first `n` slots that is not 0.
unfoldable pub last_active : (ℕ → ℕ) → ℕ → Option ℕ
last_active a zero = none
last_active a (suc i) = let rest = last_active a i in if a i == 0 then rest else some i

-- `v` goes to the first slot that is 0, of `left` slots from `i` on.
unfoldable pub register : ℕ → ℕ → ℕ → (ℕ → ℕ) → ℕ → ℕ
register v i zero a = a
register v i (suc left) a =
    let rest = register v (i + 1) left a in if a i == 0 then update a i v else rest

-- The two descriptors that every process starts with. What a block held before stays in the
-- fields that are not set.
abbrev pub with_streams : (ℕ → Fd) → ℕ → Fd
with_streams a =
    let a0 = update a 0 (record (a 0) {
      read = terminal;
      write = no_op;
      open_ = terminal;
      close = terminal;
      flags = 1;
    }) in
    update a0 1 (record (a0 1) {
      read = no_op;
      write = terminal;
      open_ = terminal;
      close = terminal;
      flags = 1;
    })

-- The result is the new block's address.
unfoldable pub create_pcb : Kernel → Kernel × ℕ
create_pcb k =
    let a = below (k.process_number + 1) in
    let p = k.pcbs a in
    let p1 = record p {
      process_num = k.process_number;
      arg_position = 0;
      arguments = for_range 127 0 (λ i m. update m i 0) p.arguments;
      file_array = with_streams p.file_array;
    } in
    let m1 = update k.pcbs a p1 in
    let s = below (k.console.on_display + 1) in
    let m2 =
      if ltb 2 k.process_number
      then update m1 s (record (m1 s) {
        active_processes = register k.process_number 0 4 (m1 s).active_processes;
      })
      else m1 in
    let m3 = update m2 a (record (m2 a) { parent_terminal = k.console.on_display }) in
    (record k { pcbs = m3; process_number = u32 (k.process_number + 1) }, a)

unfoldable pub check_process_num : Kernel → ℕ
check_process_num k =
    let t = k.pcbs (below (k.console.on_display + 1)) in
    elim (last_active t.active_processes 4) [
      | some i ↦ k.process_number
      | none ↦ k.console.on_display
    ]

abbrev pub is_null : Driver → Bool
is_null null = true
is_null _ = false

-- What follows a call, if it returns.
abbrev pub after : Outcome → (Kernel → Outcome) → Outcome
after (ret k buf r) next = next k
after waits next = waits
after (jumps a) next = jumps a

-- The body of the loop that closes the descriptors, up to `flags = 0`.
unfoldable pub close_open : Events → ℕ → Kernel → Outcome
close_open ev i k =
    let d = current_fd i k in
    if (d.flags == 1) && not (is_null d.close)
    then call_close d.close ev (pos i) k
    else ret k none (pos 0)

abbrev pub free_fd : ℕ → Kernel → Kernel
free_fd i k = set_fd i (record (current_fd i k) { flags = 0 }) k

-- The loop with `left` descriptors to go, from `i` on.
unfoldable pub close_all : Events → ℕ → ℕ → Kernel → Outcome
close_all ev i zero k = ret k none (pos 0)
close_all ev i (suc left) k =
    after (close_open ev i k) (λ k1. close_all ev (i + 1) left (free_fd i k1))

-- The block at address `s` gives up its last active process, whose number becomes the current one;
-- without one the number is 3.
unfoldable pub give_up : ℕ → Option ℕ → Kernel → Kernel
give_up s none k = record k { process_number = 3 }
give_up s (some i) k =
    let t = k.pcbs s in
    record k {
      process_number = t.active_processes i;
      pcbs = update k.pcbs s (record t {
        active_processes = update t.active_processes i 0;
        terminal_displays = update t.terminal_displays i 0;
      });
    }

-- The rest of `sys_halt`.
unfoldable pub restore : Kernel → Outcome
restore k =
    let s = below ((k.pcbs k.current_pcb).parent_terminal + 1) in
    let k1 = give_up s (last_active (k.pcbs s).active_processes 4) k in
    let a = below k1.process_number in
    let p = k1.pcbs a in
    ret (system_call_paging p (record k1 { current_pcb = a; esp0 = below p.process_num })) none
      (pos 0)

-- The status is not used.
unfoldable pub sys_halt : Events → Kernel → Outcome
sys_halt ev k =
    if leb k.process_number 2 then ret k none minus_one else after (close_all ev 0 8 k) restore
