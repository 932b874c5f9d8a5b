-- ===== src/Process/Execute/Total.antt =====
-- Enough fuel for sys_execute, and that it leaves the scheduler's counters alone.
use orca_os.Base.{
  ℕ, zero, suc, ◌||◌, bytes_of, for_range, update, ◌+◌, ◌≤◌, ◌<◌, ◌≡◌, refl, ◌∙◌, arith, ℤ, pos,
  negsuc, pos_part, leb, ◌==◌, Option, none, some, List, Memory, if_cases, Bool-cases, inl, inr,
}
use orca_os.Process.{Pcb, Kernel, current_fd}
use orca_os.Process.Drivers.{
  file_open, open_found, claim, file_read, after_read, file_close, bad_fd,
}
use orca_os.Process.Execute.Steps.{Steady, Steady-refl, set_fd-Steady, file_close-Steady}
use orca_os.Files.{Dentry, is_zero}
use orca_os.Process.Tasks.{create_pcb, system_call_paging}
use orca_os.Process.Execute.{
  name_end, process_name, skip_spaces, copy_arguments, store_argument, open_program, give_back,
  load_image, start_program, execute, sys_execute, on_frame, user_frame, image_at, magic,
}
use orca_os.Strings.{strncmp}

skip_spaces_total :
    (fuel : ℕ) (command : Memory) (i z : ℕ)
    → command z ≡ 0
    → i ≤ z
    → z < i + fuel
    → (j : ℕ) × (skip_spaces fuel command i ≡ some j) × (j ≤ z)
unfolding skip_spaces
skip_spaces_total zero command i z h le fits = absurd (omega arith)
skip_spaces_total (suc fuel) command i z h le fits = elim (Bool-cases (command i == 0x20)) [
  | inl e ↦
      (let r = skip_spaces_total fuel command (i + 1) z h (ground arith) (omega arith) in
        (r.0, rw e r.1, r.2))
  | inr e ↦ (i, rw e refl, le)
]

copy_arguments_total :
    (fuel : ℕ) (command : Memory) (i j z : ℕ) (p : Pcb)
    → command z ≡ 0
    → i ≤ z
    → z < i + fuel
    → (p' : Pcb) × (copy_arguments fuel command i j p ≡ some p')
unfolding copy_arguments
copy_arguments_total zero command i j z p h le fits = absurd (omega arith)
copy_arguments_total (suc fuel) command i j z p h le fits = elim (Bool-cases (command i == 0)) [
  | inl e ↦ (p, rw e refl)
  | inr e ↦
      (let r =
          copy_arguments_total fuel command (i + 1) (j + 1) z (store_argument j (command i) p) h
            (ground arith) (omega arith) in
        (r.0, rw e r.1))
]

-- The scheduler's counters and the terminals are as they were.
abbrev pub Keeps : Kernel → Kernel → Type 0
Keeps k k' = (k'.schedule ≡ k.schedule) × (k'.console ≡ k.console)

Keeps-trans : (k l m : Kernel) → Keeps k l → Keeps l m → Keeps k m
Keeps-trans k l m v w = (w.0 ∙ v.0, w.1 ∙ v.1)

pub Steady-Keeps : (k l : Kernel) → Steady k l → Keeps k l
Steady-Keeps k l w = (w.schedule, w.console)

create_pcb-Keeps : (k : Kernel) → Keeps k (create_pcb k).0
unfolding create_pcb
create_pcb-Keeps k = (refl, refl)

claim-Steady : (inode i left : ℕ) (k : Kernel) → Steady k (claim inode i left k).0
unfolding claim
claim-Steady inode i zero k = Steady-refl k
claim-Steady inode i (suc left) k =
    if_cases (λ (r : Kernel × ℤ). Steady k r.0) ((current_fd i k).flags == 0)
      (λ e. set_fd-Steady i _ k) (λ e. claim-Steady inode (i + 1) left k)

open_found-Steady : (r : ℤ × Option Dentry) (k : Kernel) → Steady k (open_found r k).0
unfolding open_found
open_found-Steady (pos n, some d) k = claim-Steady d.inode_num 0 8 k
open_found-Steady (pos n, none) k = Steady-refl k
open_found-Steady (negsuc n, o) k = Steady-refl k

pub file_open-Steady : (name : Option (List ℕ)) (k : Kernel) → Steady k (file_open name k).0
unfolding file_open
file_open-Steady none k = Steady-refl k
file_open-Steady (some name) k = open_found-Steady _ k

after_read-Steady :
    (fd : ℕ) (n : ℤ) (k : Kernel) (r : ℤ × Option Memory) → Steady k (after_read fd n k r).0
unfolding after_read
after_read-Steady fd n k (negsuc zero, out) = Steady-refl k
after_read-Steady fd n k (pos zero, out) = set_fd-Steady fd _ k
after_read-Steady fd n k (pos (suc r), out) = set_fd-Steady fd _ k
after_read-Steady fd n k (negsuc (suc r), out) = set_fd-Steady fd _ k

pub file_read-Steady :
    (fd : ℤ) (buf : Option Memory) (n : ℤ) (k : Kernel) → Steady k (file_read fd buf n k).0
unfolding file_read
file_read-Steady fd none n k = Steady-refl k
file_read-Steady fd (some buf) n k =
    if_cases (λ (r : Kernel × Option Memory × ℤ). Steady k r.0) (bad_fd fd) (λ e. Steady-refl k)
      (λ e. after_read-Steady (pos_part fd) n k _)

open_program-Keeps :
    (command stack : Memory) (k : Kernel) → Keeps k (open_program command stack k).0
unfolding open_program
open_program-Keeps command stack k =
    let (k1, a) = create_pcb k in
    let k1' = record k1 { current_pcb = a } in
    let k2 = (file_open (some (process_name command)) k1').0 in
    let fd = (file_open (some (process_name command)) k1').1 in
    let k3 = (file_read fd (some stack) (pos 40) k2).0 in
    Keeps-trans k k2 k3
      (Keeps-trans k k1' k2 (create_pcb-Keeps k) (Steady-Keeps k1' k2 (file_open-Steady _ k1')))
      (Steady-Keeps k2 k3 (file_read-Steady fd (some stack) (pos 40) k2))

pub give_back-Keeps : (fd : ℤ) (k : Kernel) → Keeps k (give_back fd k)
unfolding give_back
give_back-Keeps fd k = Steady-Keeps k (file_close fd k).0 (file_close-Steady fd k)

load_image-Keeps : (fd : ℤ) (buf : Memory) (k : Kernel) → Keeps k (load_image fd buf k)
unfolding load_image
load_image-Keeps fd buf k =
    let k1 = on_frame (λ m. for_range 40 0 (λ i m. update m (image_at + i) (buf i)) m) k in
    let m = k1.frames (user_frame k1) in
    let k2 = (file_read fd (some (λ j. m (image_at + 40 + j))) (pos 0x400000) k1).0 in
    let k3 = (file_close fd k2).0 in
    Keeps-trans k k2 k3 (Steady-Keeps k1 k2 (file_read-Steady fd _ _ k1))
      (Steady-Keeps k2 k3 (file_close-Steady fd k2))

start_program-Keeps : (fd : ℤ) (buf : Memory) (k : Kernel) → Keeps k (start_program fd buf k).0
unfolding start_program system_call_paging
start_program-Keeps fd buf k = load_image-Keeps fd buf _

-- The result of a call that keeps them.
abbrev pub Gives : Kernel → Option (Kernel × ℤ) → Type 0
Gives k o = (k' : Kernel) × (r : ℤ) × (o ≡ some (k', r)) × Keeps k k'

execute_total :
    (fuel z : ℕ) (command : Memory) (fd : ℤ) (buf : Memory) (k : Kernel)
    → command z ≡ 0
    → name_end command 0 31 < z
    → z < fuel
    → Gives k (execute fuel command fd buf k)
unfolding execute
execute_total fuel z command fd buf k h behind fits =
    if_cases (Gives k) (is_zero (strncmp buf (bytes_of magic) 4))
      (λ e.
        let i =
          skip_spaces_total fuel command (name_end command 0 31 + 1) z h (omega arith)
            (omega arith) in
        let p =
          copy_arguments_total fuel command i.0 0 z (k.pcbs k.current_pcb) h i.2 (omega arith) in
        let r = start_program fd buf (record k { pcbs = update k.pcbs k.current_pcb p.0 }) in
        (r.0, r.1, rw i.1 (rw p.1 refl), start_program-Keeps fd buf _))
      (λ e. (_, _, refl, give_back-Keeps fd k))

-- A command whose first zero lies behind the separator, or some zero after that, gives a result.
pub sys_execute_total :
    (fuel z : ℕ) (command stack : Memory) (k : Kernel)
    → command z ≡ 0
    → name_end command 0 31 < z
    → z < fuel
    → Gives k (sys_execute fuel (some command) stack k)
unfolding sys_execute
sys_execute_total fuel z command stack k h behind fits =
    if_cases (Gives k) ((command 0 == 0) || leb 6 k.process_number)
      (λ e. (k, _, refl, (refl, refl)))
      (λ e.
        let o = open_program command stack k in
        let r = execute_total fuel z command o.1 o.2 o.0 h behind fits in
        (r.0, r.1, r.2, Keeps-trans k o.0 r.0 (open_program-Keeps command stack k) r.3))
