-- ===== src/System/Return.antt =====
-- A program that is started and halts: who goes on.
use orca_os.Base.{
  ℕ, ◌+◌, ◌≤◌, ◌<◌, ◌≡◌, ◌⊎◌, inl, inr, refl, ap, ◌∙◌, subst, arith, ℤ, pos, if_cases, Option, none,
  some, Memory, update, leb, ◌==◌, ◌||◌, bytes_of, u32, false,
}
use orca_os.Strings.{strncmp}
use orca_os.Files.{is_zero}
use orca_os.Process.{Pcb, Kernel, below, current_fd}
use orca_os.Process.Drivers.{file_open}
use orca_os.Process.Calls.{Events, ret}
use orca_os.Process.Tasks.{register, create_pcb, sys_halt, system_call_paging}
use orca_os.Process.Tasks.Closing.{is_raw}
use orca_os.Process.Tasks.Halt.{next_process, sys_halt_lem}
use orca_os.Process.Execute.{
  name_end, process_name, skip_spaces, magic, open_program, give_back, start_program, execute,
  sys_execute, continue, with_arguments_at,
}
use orca_os.System.Kept.{
  Kept, Kept-trans, file_open-Kept, file_close-Kept, file_read-Kept, load_image-Kept, Copies,
  copy_arguments-Copies, arguments-Kept,
}

-- The kernel with the new block, which is current.
abbrev created : Kernel → Kernel
created k = let (l, a) = create_pcb k in record l { current_pcb = a }

-- The program runs, or the number of processes is as it was.
abbrev Launched : ℕ → Kernel → Option (Kernel × ℤ) → Type 0
Launched number k none = Unit {0}
Launched number k (some (l, r)) = (l.process_number ≡ number) ⊎ Kept k l

open_program-Kept :
    (command stack : Memory) (k : Kernel) → Kept (created k) (open_program command stack k).0
unfolding open_program
open_program-Kept command stack k =
    let k1 = created k in
    let (k2, fd) = file_open (some (process_name command)) k1 in
    Kept-trans k1 k2 _ (file_open-Kept (some (process_name command)) k1)
      (file_read-Kept fd (some stack) (pos 40) k2)

-- No process is waiting to be restored.
start_program-Kept :
    (fd : ℤ) (buf : Memory) (k : Kernel)
    → k.schedule.recover_num ≤ k.process_number
    → Kept k (start_program fd buf k).0
unfolding start_program system_call_paging
start_program-Kept fd buf k h =
    let w = load_image-Kept fd buf (system_call_paging (k.pcbs k.current_pcb) k) in
    record {
      current = w.current;
      number = ground (arith, w.number, w.recover, h);
      recover = w.recover;
      pointers = w.pointers;
      slots = w.slots;
      home = w.home;
    }

continue-Launched :
    (number : ℕ) (fd : ℤ) (buf : Memory) (k : Kernel) (o : Option Pcb)
    → k.schedule.recover_num ≤ k.process_number
    → Copies (k.pcbs k.current_pcb) o
    → Launched number k (continue fd buf k o)
continue-Launched number fd buf k none h w = tt
continue-Launched number fd buf k (some p) h w =
    let l = record k { pcbs = update k.pcbs k.current_pcb p } in
    inr (Kept-trans k l _ (arguments-Kept p k w) (start_program-Kept fd buf l h))

with_arguments_at-Launched :
    (number fuel : ℕ) (command : Memory) (fd : ℤ) (buf : Memory) (k : Kernel) (o : Option ℕ)
    → k.schedule.recover_num ≤ k.process_number
    → Launched number k (with_arguments_at fuel command fd buf k o)
with_arguments_at-Launched number fuel command fd buf k none h = tt
with_arguments_at-Launched number fuel command fd buf k (some i) h =
    continue-Launched number fd buf k _ h
      (copy_arguments-Copies fuel command i 0 (k.pcbs k.current_pcb))

execute-Launched :
    (number fuel : ℕ) (command : Memory) (fd : ℤ) (buf : Memory) (k : Kernel)
    → number < 6
    → k.process_number ≡ u32 (number + 1)
    → k.schedule.recover_num ≤ k.process_number
    → Launched number k (execute fuel command fd buf k)
unfolding execute give_back
execute-Launched number fuel command fd buf k small e h =
    if_cases (Launched number k) (is_zero (strncmp buf (bytes_of magic) 4))
      (λ g.
        with_arguments_at-Launched number fuel command fd buf k
          (skip_spaces fuel command (name_end command 0 31 + 1)) h)
      (λ g. let w = file_close-Kept fd k in inl (omega (arith, w.number, e, small)))

Launched-trans :
    (number : ℕ) (k l : Kernel) (o : Option (Kernel × ℤ))
    → Kept k l
    → Launched number l o
    → Launched number k o
Launched-trans number k l none v w = tt
Launched-trans number k l (some r) v (inl e) = inl e
Launched-trans number k l (some (m, r)) v (inr w) = inr (Kept-trans k l m v w)

created_lem :
    (k : Kernel)
    → ((created k).process_number ≡ u32 (k.process_number + 1))
      × ((created k).schedule.recover_num ≡ k.schedule.recover_num)
      × (((created k).pcbs (created k).current_pcb).parent_terminal ≡ k.console.on_display)
unfolding create_pcb
created_lem k = (refl, refl, ground arith)

sys_execute-Launched :
    (fuel : ℕ) (command stack : Memory) (k : Kernel)
    → k.schedule.recover_num ≤ k.process_number
    → Launched k.process_number (created k) (sys_execute fuel (some command) stack k)
unfolding sys_execute
sys_execute-Launched fuel command stack k h =
    if_cases (Launched k.process_number (created k)) ((command 0 == 0) || leb 6 k.process_number)
      (λ e. inl refl)
      (λ e.
        let (l, fd, buf) = open_program command stack k in
        let v = open_program-Kept command stack k in
        let c = created_lem k in
        Launched-trans k.process_number (created k) l _ v (
          execute-Launched k.process_number fuel command fd buf l (ground (arith, e))
            (v.number ∙ c.0) (ground (arith, e, v.number, v.recover, c.0, c.1, h))))

-- The slots in use of a list of four come first, and one is free.
pub record IsPacked (a : ℕ → ℕ) : Type 0 where
  pub first : a 0 ≡ 0 → a 1 ≡ 0
  pub second : a 1 ≡ 0 → a 2 ≡ 0
  pub last : a 3 ≡ 0

next_process-register :
    (number : ℕ) (a : ℕ → ℕ)
    → 2 < number
    → IsPacked a
    → next_process (register number 0 4 a) ≡ number
unfolding register
next_process-register number a h v = ground (arith, h, v.first, v.second, v.last)

created_slots :
    (k : Kernel)
    → 2 < k.process_number
    → let s = below (k.console.on_display + 1) in
      ((created k).pcbs s).active_processes
      ≡ register k.process_number 0 4 (k.pcbs s).active_processes
unfolding create_pcb
created_slots k h = ground (arith, h)

created_pointers :
    (k : Kernel)
    → ((j : ℕ)
        → j < 8
        → is_raw ((k.pcbs (below (k.process_number + 1))).file_array j).close ≡ false)
    → (j : ℕ) → j < 8
    → is_raw (current_fd j (created k)).close ≡ false
unfolding create_pcb
created_pointers k h j p = ground (arith, h j p)

halt_created :
    (ev : Events) (k l : Kernel)
    → 2 < k.process_number
    → k.process_number < 6
    → IsPacked (k.pcbs (below (k.console.on_display + 1))).active_processes
    → ((j : ℕ)
        → j < 8
        → is_raw ((k.pcbs (below (k.process_number + 1))).file_array j).close ≡ false)
    → Kept (created k) l
    → (m : Kernel) × (sys_halt ev l ≡ ret m none (pos 0))
      × (m.process_number ≡ k.process_number)
      × (m.current_pcb ≡ below k.process_number)
halt_created ev k l h small packed closes w =
    let c = created_lem k in
    let n : 2 < l.process_number = omega (arith, w.number, c.0, h, small) in
    let r = sys_halt_lem ev l n (λ j p. ap is_raw (w.pointers j) ∙ created_pointers k closes j p) in
    let t : (l.pcbs l.current_pcb).parent_terminal ≡ k.console.on_display =
      w.home l.current_pcb ∙ ap (λ a. ((created k).pcbs a).parent_terminal) w.current ∙ c.2 in
    let s : (l.pcbs (below ((l.pcbs l.current_pcb).parent_terminal + 1))).active_processes
        ≡ register k.process_number 0 4
            (k.pcbs (below (k.console.on_display + 1))).active_processes =
      ap (λ t. (l.pcbs (below (t + 1))).active_processes) t
      ∙ w.slots (below (k.console.on_display + 1))
      ∙ created_slots k h in
    let e : r.0.process_number ≡ k.process_number =
      r.3 ∙ ap next_process s ∙ next_process-register k.process_number _ h packed in
    (r.0, r.1, e, r.4 ∙ ap below e)

-- A program is started by a command with a zero behind the separator within 132 bytes, so that its
-- arguments fit into its block, and halts at once, where three to five processes are counted and none
-- waits to be restored; the terminal on display has a free slot in its list, behind those in use;
-- and the `close` pointers in the new block's memory are NULL or a driver's. Then sys_halt returns
-- 0; the count of processes is as it was before; and the block that is current is that of the
-- process with the last number before, whichever process made the call.
pub sys_halt-sys_execute :
    (fuel z : ℕ) (command stack : Memory) (k l : Kernel) (r : ℤ) (ev : Events)
    → command z ≡ 0
    → name_end command 0 31 < z
    → z ≤ 131
    → 2 < k.process_number
    → k.process_number < 6
    → k.schedule.recover_num ≤ k.process_number
    → IsPacked (k.pcbs (below (k.console.on_display + 1))).active_processes
    → ((j : ℕ)
        → j < 8
        → is_raw ((k.pcbs (below (k.process_number + 1))).file_array j).close ≡ false)
    → sys_execute fuel (some command) stack k ≡ some (l, r)
    → l.process_number ≡ k.process_number + 1
    → (m : Kernel) × (sys_halt ev l ≡ ret m none (pos 0))
      × (m.process_number ≡ k.process_number)
      × (m.current_pcb ≡ below k.process_number)
sys_halt-sys_execute fuel z command stack k l r ev ends behind short h small calm packed closes e
      runs =
    elim (subst (Launched k.process_number (created k)) e
      (sys_execute-Launched fuel command stack k calm)) [
        | inl same ↦ absurd (omega (arith, same, runs))
        | inr w ↦ halt_created ev k l h small packed closes w
      ]
