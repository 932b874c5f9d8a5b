-- ===== src/System/Kept.antt =====
-- What the steps of sys_execute leave alone in the new block and in the terminals' lists.
use orca_os.Base.{
  ℕ, zero, suc, ◌+◌, ◌≡◌, refl, ap, ◌∙◌, arith, ℤ, pos, negsuc, pos_part, if_cases, Option, none,
  some, List, Memory, update, ltb, ◌==◌, for_range,
}
use orca_os.Files.{Dentry}
use orca_os.Process.{Fd, Pcb, Kernel, current_fd, set_fd}
use orca_os.Process.Drivers.{
  bad_fd, claim, open_found, file_open, file_close, after_read, file_read,
}
use orca_os.Process.Execute.{
  store_argument, copy_arguments, image_at, user_frame, on_frame, load_image,
}

-- The same block is current, with the same `close` pointers; every block has the same list and the
-- same terminal.
pub record Kept (k l : Kernel) : Type 0 where
  pub current : l.current_pcb ≡ k.current_pcb
  pub number : l.process_number ≡ k.process_number
  pub recover : l.schedule.recover_num ≡ k.schedule.recover_num
  pub pointers : (j : ℕ) → (current_fd j l).close ≡ (current_fd j k).close
  pub slots : (a : ℕ) → (l.pcbs a).active_processes ≡ (k.pcbs a).active_processes
  pub home : (a : ℕ) → (l.pcbs a).parent_terminal ≡ (k.pcbs a).parent_terminal

pub Kept-refl : (k : Kernel) → Kept k k
Kept-refl k = record {
  current = refl;
  number = refl;
  recover = refl;
  pointers = λ j. refl;
  slots = λ a. refl;
  home = λ a. refl;
}

pub Kept-trans : (k l m : Kernel) → Kept k l → Kept l m → Kept k m
Kept-trans k l m v w = record {
  current = w.current ∙ v.current;
  number = w.number ∙ v.number;
  recover = w.recover ∙ v.recover;
  pointers = λ j. w.pointers j ∙ v.pointers j;
  slots = λ a. w.slots a ∙ v.slots a;
  home = λ a. w.home a ∙ v.home a;
}

set_fd-Kept :
    (fd : ℕ) (d : Fd) (k : Kernel) → d.close ≡ (current_fd fd k).close → Kept k (set_fd fd d k)
set_fd-Kept fd d k e = record {
  current = refl;
  number = refl;
  recover = refl;
  pointers = λ j. ground (arith, e);
  slots = λ a. ground arith;
  home = λ a. ground arith;
}

claim-Kept : (inode i left : ℕ) (k : Kernel) → Kept k (claim inode i left k).0
unfolding claim
claim-Kept inode i zero k = Kept-refl k
claim-Kept inode i (suc left) k =
    if_cases (λ (r : Kernel × ℤ). Kept k r.0) ((current_fd i k).flags == 0)
      (λ e. set_fd-Kept i _ k refl) (λ e. claim-Kept inode (i + 1) left k)

open_found-Kept : (r : ℤ × Option Dentry) (k : Kernel) → Kept k (open_found r k).0
unfolding open_found
open_found-Kept (pos n, some d) k = claim-Kept d.inode_num 0 8 k
open_found-Kept (pos n, none) k = Kept-refl k
open_found-Kept (negsuc n, o) k = Kept-refl k

pub file_open-Kept : (name : Option (List ℕ)) (k : Kernel) → Kept k (file_open name k).0
unfolding file_open
file_open-Kept none k = Kept-refl k
file_open-Kept (some name) k = open_found-Kept _ k

pub file_close-Kept : (fd : ℤ) (k : Kernel) → Kept k (file_close fd k).0
unfolding file_close
file_close-Kept fd k =
    let d = current_fd (pos_part fd) k in
    if_cases (λ (r : Kernel × ℤ). Kept k r.0) (bad_fd fd) (λ e. Kept-refl k)
      (λ e.
        if_cases (λ (r : Kernel × ℤ). Kept k r.0) (d.flags == 1)
          (λ f. set_fd-Kept (pos_part fd) _ k refl) (λ f. Kept-refl k))

after_read-Kept :
    (fd : ℕ) (n : ℤ) (k : Kernel) (r : ℤ × Option Memory) → Kept k (after_read fd n k r).0
unfolding after_read
after_read-Kept fd n k (negsuc zero, out) = Kept-refl k
after_read-Kept fd n k (pos zero, out) = set_fd-Kept fd _ k refl
after_read-Kept fd n k (pos (suc r), out) = set_fd-Kept fd _ k refl
after_read-Kept fd n k (negsuc (suc r), out) = set_fd-Kept fd _ k refl

pub file_read-Kept :
    (fd : ℤ) (buf : Option Memory) (n : ℤ) (k : Kernel) → Kept k (file_read fd buf n k).0
unfolding file_read
file_read-Kept fd none n k = Kept-refl k
file_read-Kept fd (some buf) n k =
    if_cases (λ (r : Kernel × Option Memory × ℤ). Kept k r.0) (bad_fd fd) (λ e. Kept-refl k)
      (λ e. after_read-Kept (pos_part fd) n k _)

pub load_image-Kept : (fd : ℤ) (buf : Memory) (k : Kernel) → Kept k (load_image fd buf k)
unfolding load_image
load_image-Kept fd buf k =
    let k1 = on_frame (λ m. for_range 40 0 (λ i m. update m (image_at + i) (buf i)) m) k in
    let m = k1.frames (user_frame k1) in
    let b = some (λ j. m (image_at + 40 + j)) in
    let k2 = (file_read fd b (pos 0x400000) k1).0 in
    let k3 = (file_close fd k2).0 in
    let w = Kept-trans k1 k2 k3 (file_read-Kept fd b (pos 0x400000) k1) (file_close-Kept fd k2) in
    record {
      current = w.current;
      number = w.number;
      recover = w.recover;
      pointers = w.pointers;
      slots = w.slots;
      home = w.home;
    }

-- A block with other arguments.
pub record SameBlock (p q : Pcb) : Type 0 where
  pub num : q.process_num ≡ p.process_num
  pub files : q.file_array ≡ p.file_array
  pub list : q.active_processes ≡ p.active_processes
  pub terminal : q.parent_terminal ≡ p.parent_terminal

store_argument-SameBlock : (i c : ℕ) (p : Pcb) → SameBlock p (store_argument i c p)
unfolding store_argument
store_argument-SameBlock i c p =
    if_cases (SameBlock p) (ltb i 128)
      (λ e. record { num = refl; files = refl; list = refl; terminal = refl })
      (λ e.
        if_cases (SameBlock p) (ltb i 132)
          (λ f. record { num = refl; files = refl; list = refl; terminal = refl })
          (λ f. record { num = refl; files = refl; list = refl; terminal = refl }))

abbrev pub Copies : Pcb → Option Pcb → Type 0
Copies p none = Unit {0}
Copies p (some q) = SameBlock p q

Copies-trans : (p q : Pcb) (o : Option Pcb) → SameBlock p q → Copies q o → Copies p o
Copies-trans p q none v w = tt
Copies-trans p q (some r) v w = record {
  num = w.num ∙ v.num;
  files = w.files ∙ v.files;
  list = w.list ∙ v.list;
  terminal = w.terminal ∙ v.terminal;
}

pub copy_arguments-Copies :
    (fuel : ℕ) (command : Memory) (i j : ℕ) (p : Pcb) → Copies p (copy_arguments fuel command i j p)
unfolding copy_arguments
copy_arguments-Copies zero command i j p = tt
copy_arguments-Copies (suc fuel) command i j p =
    let q = store_argument j (command i) p in
    if_cases (Copies p) (command i == 0)
      (λ e. record { num = refl; files = refl; list = refl; terminal = refl })
      (λ e.
        Copies-trans p q _ (store_argument-SameBlock j (command i) p)
          (copy_arguments-Copies fuel command (i + 1) (j + 1) q))

pub arguments-Kept :
    (p : Pcb) (k : Kernel)
    → SameBlock (k.pcbs k.current_pcb) p
    → Kept k (record k { pcbs = update k.pcbs k.current_pcb p })
arguments-Kept p k w = record {
  current = refl;
  number = refl;
  recover = refl;
  pointers = λ j. ground (arith, ap (λ (f : ℕ → Fd). (f j).close) w.files);
  slots = λ a. ground (arith, w.list);
  home = λ a. ground (arith, w.terminal);
}
