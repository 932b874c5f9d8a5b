-- ===== src/Process/Tasks/Halt.antt =====
-- What a process leaves when it halts.
use orca_os.Base.{
  ℕ, ◌+◌, ◌%◌, ◌^◌, ◌<◌, ◌≡◌, refl, sym, ap, ◌∙◌, arith, pos, false, not, leb, ◌==◌, if◌then◌else◌,
  if_false, Option, none, some,
}
use orca_os.Paging.{map_program}
use orca_os.Process.{Fd, Kernel, below, current_fd}
use orca_os.Process.Calls.{Events, ret}
use orca_os.Process.Tasks.{last_active, after, give_up, restore, sys_halt, system_call_paging}
use orca_os.Process.Tasks.Closing.{is_raw, close_all-Returns}

-- The last of the four numbers that is not 0, or else 3.
abbrev pub next_process : (ℕ → ℕ) → ℕ
next_process a =
    if not (a 3 == 0)
    then a 3
    else if not (a 2 == 0)
    then a 2
    else if not (a 1 == 0)
    then a 1
    else if not (a 0 == 0)
    then a 0
    else 3

give_up-number :
    (s : ℕ) (k : Kernel)
    → (give_up s (last_active (k.pcbs s).active_processes 4) k).process_number
      ≡ next_process (k.pcbs s).active_processes
unfolding give_up last_active
give_up-number s k = ground arith

give_up-files :
    (s : ℕ) (o : Option ℕ) (k : Kernel) (a : ℕ)
    → ((give_up s o k).pcbs a).file_array ≡ (k.pcbs a).file_array
unfolding give_up
give_up-files s none k a = refl
give_up-files s (some i) k a = ground arith

-- What `restore` leads to.
restore_lem :
    (k : Kernel)
    → let s = below ((k.pcbs k.current_pcb).parent_terminal + 1) in
      (k1 : Kernel) × (restore k ≡ ret k1 none (pos 0))
      × (k1.process_number ≡ next_process (k.pcbs s).active_processes)
      × (k1.current_pcb ≡ below k1.process_number)
      × (k1.esp0 ≡ below (k1.pcbs k1.current_pcb).process_num)
      × ((k1.pages.directory 32).upper_address
          ≡ (2 + (k1.pcbs k1.current_pcb).process_num) % 2 ^ 10)
      × ((a : ℕ) → (k1.pcbs a).file_array ≡ (k.pcbs a).file_array)
unfolding restore system_call_paging map_program
restore_lem k =
    let s = below ((k.pcbs k.current_pcb).parent_terminal + 1) in
    let o = last_active (k.pcbs s).active_processes 4 in
    let k1 = give_up s o k in
    let a = below k1.process_number in
    let p = k1.pcbs a in
    (
      system_call_paging p (record k1 { current_pcb = a; esp0 = below p.process_num }),
      refl,
      give_up-number s k,
      refl,
      refl,
      refl,
      λ a. give_up-files s o k a,
    )

-- A process halts, where the process number is above 2 and each of its eight descriptors' `close`
-- pointers is NULL or a driver's: the call returns 0, all its eight descriptors are free, and the process
-- number is the last of the four active processes of its terminal's first shell that is not 0, or
-- else 3; the block that is current then is the one 8 KB times that number below 8 MB, and the
-- kernel's stack and the mapping of the program are those of the process whose block it is.
pub sys_halt_lem :
    (ev : Events) (k : Kernel)
    → 2 < k.process_number
    → ((j : ℕ) → j < 8 → is_raw (current_fd j k).close ≡ false)
    → let s = below ((k.pcbs k.current_pcb).parent_terminal + 1) in
      (k' : Kernel) × (sys_halt ev k ≡ ret k' none (pos 0))
      × ((j : ℕ) → ((k'.pcbs k.current_pcb).file_array (j % 8)).flags ≡ 0)
      × (k'.process_number ≡ next_process (k.pcbs s).active_processes)
      × (k'.current_pcb ≡ below k'.process_number)
      × (k'.esp0 ≡ below (k'.pcbs k'.current_pcb).process_num)
      × ((k'.pages.directory 32).upper_address
          ≡ (2 + (k'.pcbs k'.current_pcb).process_num) % 2 ^ 10)
unfolding sys_halt
sys_halt_lem ev k h closes =
    let (k1, e1, v, f) = close_all-Returns ev 0 8 k (λ j p q. closes j q) in
    let (k2, e2, number, current, stack, mapped, files) = restore_lem k1 in
    let home = v.home k.current_pcb in
    (
      k2,
      if_false (leb k.process_number 2) _ _ (ground arith) ∙ ap (λ o. after o restore) e1 ∙ e2,
      λ j.
          ap (λ (a : ℕ → Fd). (a (j % 8)).flags) (files k.current_pcb)
          ∙ ap (λ c. ((k1.pcbs c).file_array (j % 8)).flags) (sym v.same)
          ∙ f (j % 8) (omega arith) (omega arith),
      number
          ∙ ap
              (λ c.
                next_process (k1.pcbs (below ((k1.pcbs c).parent_terminal + 1))).active_processes)
              v.same
          ∙ ap (λ t. next_process (k1.pcbs (below (t + 1))).active_processes) home
          ∙ ap next_process (v.slots (below ((k.pcbs k.current_pcb).parent_terminal + 1))),
      current,
      stack,
      mapped,
    )
