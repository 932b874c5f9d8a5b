-- ===== src/System/Calm.antt =====
-- What the calls on descriptors leave alone.
use orca_os.Base.{
  ℕ, zero, suc, ◌+◌, ◌/◌, ◌≡◌, refl, ◌∙◌, arith, ℤ, pos, negsuc, pos_part, if_cases, Option, none,
  some, List, Memory, ◌==◌, update, load32,
}
use orca_os.Files.{Dentry, read_dentry_by_index}
use orca_os.Process.{Fd, Pcb, Kernel, current_fd, set_fd}
use orca_os.Process.Drivers.{
  bad_fd, local_dentry, claim, open_found, file_open, file_close, after_read, file_read, list_entry,
  name_bytes, directory_read, directory_close,
}
use orca_os.Process.Calls.{sys_getargs}

-- The terminals, the numbers of the processes, the terminals' lists of them, the current block and the frame of
-- its program are the same.
pub record Calm (k k' : Kernel) : Type 0 where
  pub console : k'.console ≡ k.console
  pub current : k'.current_pcb ≡ k.current_pcb
  pub number : k'.process_number ≡ k.process_number
  pub recover : k'.schedule.recover_num ≡ k.schedule.recover_num
  pub frame : (k'.pages.directory 32).upper_address ≡ (k.pages.directory 32).upper_address
  pub numbers : (a : ℕ) → (k'.pcbs a).process_num ≡ (k.pcbs a).process_num
  pub slots : (a : ℕ) → (k'.pcbs a).active_processes ≡ (k.pcbs a).active_processes
  pub home : (a : ℕ) → (k'.pcbs a).parent_terminal ≡ (k.pcbs a).parent_terminal

pub Calm-refl : (k : Kernel) → Calm k k
Calm-refl k = record {
  console = refl;
  current = refl;
  number = refl;
  recover = refl;
  frame = refl;
  numbers = λ a. refl;
  slots = λ a. refl;
  home = λ a. refl;
}

pub Calm-trans : (k l m : Kernel) → Calm k l → Calm l m → Calm k m
Calm-trans k l m v w = record {
  console = w.console ∙ v.console;
  current = w.current ∙ v.current;
  number = w.number ∙ v.number;
  recover = w.recover ∙ v.recover;
  frame = w.frame ∙ v.frame;
  numbers = λ a. w.numbers a ∙ v.numbers a;
  slots = λ a. w.slots a ∙ v.slots a;
  home = λ a. w.home a ∙ v.home a;
}

-- Another block at an address, with the same numbers.
pub update-Calm :
    (a : ℕ) (p : Pcb) (k : Kernel)
    → p.process_num ≡ (k.pcbs a).process_num
    → p.active_processes ≡ (k.pcbs a).active_processes
    → p.parent_terminal ≡ (k.pcbs a).parent_terminal
    → Calm k (record k { pcbs = update k.pcbs a p })
update-Calm a p k n s h = record {
  console = refl;
  current = refl;
  number = refl;
  recover = refl;
  frame = refl;
  numbers = λ b. ground arith;
  slots = λ b. ground arith;
  home = λ b. ground arith;
}

pub set_fd-Calm : (fd : ℕ) (d : Fd) (k : Kernel) → Calm k (set_fd fd d k)
set_fd-Calm fd d k = update-Calm k.current_pcb _ k refl refl refl

claim-Calm : (inode i left : ℕ) (k : Kernel) → Calm k (claim inode i left k).0
unfolding claim
claim-Calm inode i zero k = Calm-refl k
claim-Calm inode i (suc left) k =
    if_cases (λ (r : Kernel × ℤ). Calm k r.0) ((current_fd i k).flags == 0) (λ e. set_fd-Calm i _ k)
      (λ e. claim-Calm inode (i + 1) left k)

open_found-Calm : (r : ℤ × Option Dentry) (k : Kernel) → Calm k (open_found r k).0
unfolding open_found
open_found-Calm (pos n, some d) k = claim-Calm d.inode_num 0 8 k
open_found-Calm (pos n, none) k = Calm-refl k
open_found-Calm (negsuc n, o) k = Calm-refl k

pub file_open-Calm : (name : Option (List ℕ)) (k : Kernel) → Calm k (file_open name k).0
unfolding file_open
file_open-Calm none k = Calm-refl k
file_open-Calm (some name) k = open_found-Calm _ k

pub file_close-Calm : (fd : ℤ) (k : Kernel) → Calm k (file_close fd k).0
unfolding file_close
file_close-Calm fd k =
    let d = current_fd (pos_part fd) k in
    if_cases (λ (r : Kernel × ℤ). Calm k r.0) (bad_fd fd) (λ e. Calm-refl k)
      (λ e.
        if_cases (λ (r : Kernel × ℤ). Calm k r.0) (d.flags == 1)
          (λ f. set_fd-Calm (pos_part fd) _ k) (λ f. Calm-refl k))

after_read-Calm :
    (fd : ℕ) (n : ℤ) (k : Kernel) (r : ℤ × Option Memory) → Calm k (after_read fd n k r).0
unfolding after_read
after_read-Calm fd n k (negsuc zero, out) = Calm-refl k
after_read-Calm fd n k (pos zero, out) = set_fd-Calm fd _ k
after_read-Calm fd n k (pos (suc r), out) = set_fd-Calm fd _ k
after_read-Calm fd n k (negsuc (suc r), out) = set_fd-Calm fd _ k

pub file_read-Calm :
    (fd : ℤ) (buf : Option Memory) (n : ℤ) (k : Kernel) → Calm k (file_read fd buf n k).0
unfolding file_read
file_read-Calm fd none n k = Calm-refl k
file_read-Calm fd (some buf) n k =
    if_cases (λ (r : Kernel × Option Memory × ℤ). Calm k r.0) (bad_fd fd) (λ e. Calm-refl k)
      (λ e. after_read-Calm (pos_part fd) n k _)

list_entry-Calm :
    (fd : ℕ) (n : ℤ) (buf : Memory) (k : Kernel) (r : ℤ × Option Dentry)
    → Calm k (list_entry fd n buf k r).0
unfolding list_entry
list_entry-Calm fd n buf k (pos r, some e) = set_fd-Calm fd _ k
list_entry-Calm fd n buf k (pos r, none) = Calm-refl k
list_entry-Calm fd n buf k (negsuc r, o) = Calm-refl k

pub directory_read-Calm :
    (fd : ℤ) (buf : Option Memory) (n : ℤ) (k : Kernel) → Calm k (directory_read fd buf n k).0
unfolding directory_read
directory_read-Calm fd none n k = Calm-refl k
directory_read-Calm fd (some buf) n k =
    if_cases (λ (r : Kernel × Option Memory × ℤ). Calm k r.0) (bad_fd fd) (λ e. Calm-refl k)
      (λ e.
        let i = (current_fd (pos_part fd) k).position / 32 in
        if_cases (λ (r : Kernel × Option Memory × ℤ). Calm k r.0)
          (i == load32 k.image.mem k.image.boot_block) (λ f. Calm-refl k)
          (λ f.
            list_entry-Calm (pos_part fd) (name_bytes n) buf k
              (read_dentry_by_index k.image i (some local_dentry))))

pub directory_close-Calm : (fd : ℤ) (k : Kernel) → Calm k (directory_close fd k).0
unfolding directory_close
directory_close-Calm fd k =
    if_cases (λ (r : Kernel × ℤ). Calm k r.0) (bad_fd fd) (λ e. Calm-refl k)
      (λ e. set_fd-Calm (pos_part fd) _ k)

pub sys_getargs-Calm : (buf : Memory) (n : ℤ) (k : Kernel) → Calm k (sys_getargs buf n k).0
unfolding sys_getargs
sys_getargs-Calm buf n k = update-Calm k.current_pcb _ k refl refl refl
