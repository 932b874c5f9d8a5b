-- ===== src/System/Programs.antt =====
-- sys_execute, and the limits of the kernel's state.
use orca_os.Base.{
  ℕ, ◌+◌, ◌≤◌, ◌≡◌, refl, arith, ℤ, pos, if_cases, Option, none, some, Memory, update, leb, ◌==◌,
  ◌||◌, bytes_of, for_range, sub32, u32,
}
use orca_os.Strings.{strncmp}
use orca_os.Files.{is_zero}
use orca_os.Process.{Pcb, Kernel}
use orca_os.Process.Drivers.{file_open, file_read, file_close}
use orca_os.Process.Tasks.{create_pcb, system_call_paging}
use orca_os.Process.Execute.{
  name_end, process_name, skip_spaces, image_at, magic, user_frame, on_frame, open_program,
  give_back, load_image, start_program, execute, sys_execute, continue, with_arguments_at,
}
use orca_os.System.Calm.{
  Calm, Calm-trans, update-Calm, file_open-Calm, file_read-Calm, file_close-Calm,
}
use orca_os.System.Limits.{block, Limits, Calm-Limits}
use orca_os.System.Kept.{Copies, copy_arguments-Copies}
use orca_os.System.Tasks.{create_pcb-Limits, system_call_paging-Limits}

-- A program's memory is not part of the limits.
pub frames-Calm : (f : ℕ → Memory) (k : Kernel) → Calm k (record k { frames = f })
frames-Calm f k = record {
  console = refl;
  current = refl;
  number = refl;
  recover = refl;
  frame = refl;
  numbers = λ a. refl;
  slots = λ a. refl;
  home = λ a. refl;
}

number-create_pcb : (k : Kernel) → (create_pcb k).0.process_number ≡ u32 (k.process_number + 1)
unfolding create_pcb
number-create_pcb k = refl

open_program-Limits :
    (command stack : Memory) (k : Kernel)
    → k.process_number ≤ 5
    → Limits k
    → Limits (open_program command stack k).0
      × (1 ≤ (open_program command stack k).0.process_number)
unfolding open_program
open_program-Limits command stack k h v =
    let (k1, a) = create_pcb k in
    let k1' = record k1 { current_pcb = a } in
    let (k2, fd) = file_open (some (process_name command)) k1' in
    let c =
      Calm-trans k1' k2 _ (file_open-Calm (some (process_name command)) k1')
        (file_read-Calm fd (some stack) (pos 40) k2) in
    (Calm-Limits k1' _ c (create_pcb-Limits k h v), omega (arith, c.number, number-create_pcb k, h))

load_image-Limits : (fd : ℤ) (buf : Memory) (k : Kernel) → Limits k → Limits (load_image fd buf k)
unfolding load_image
load_image-Limits fd buf k v =
    let k1 = on_frame (λ m. for_range 40 0 (λ i m. update m (image_at + i) (buf i)) m) k in
    let m = k1.frames (user_frame k1) in
    let b = some (λ j. m (image_at + 40 + j)) in
    let k2 = (file_read fd b (pos 0x400000) k1).0 in
    let k3 = (file_close fd k2).0 in
    Calm-Limits k3 _ (frames-Calm _ k3) (
      Calm-Limits k2 k3 (file_close-Calm fd k2) (
        Calm-Limits k1 k2 (file_read-Calm fd b (pos 0x400000) k1)
          (Calm-Limits k k1 (frames-Calm _ k) v)))

-- Another number of processes, another top of the kernel's stack, another current block.
with_number-Limits :
    (e n : ℕ) (k : Kernel) → n ≤ 6 → Limits k → Limits (record k { esp0 = e; process_number = n })
with_number-Limits e n k h v = record {
  console = v.console;
  current = v.current;
  number = h;
  recover = v.recover;
  frame = v.frame;
  numbers = v.numbers;
  slots = v.slots;
  home = v.home;
}

start_program-Limits :
    (fd : ℤ) (buf : Memory) (k : Kernel) → Limits k → Limits (start_program fd buf k).0
unfolding start_program
start_program-Limits fd buf k v =
    let k0 = system_call_paging (k.pcbs k.current_pcb) k in
    let k1 = load_image fd buf k0 in
    let w =
      load_image-Limits fd buf k0
        (system_call_paging-Limits (k.pcbs k.current_pcb) k (v.numbers k.current_pcb) v) in
    with_number-Limits _ _ k1 (ground (arith, w.number, w.recover)) w

give_back-Limits : (fd : ℤ) (k : Kernel) → 1 ≤ k.process_number → Limits k → Limits (give_back fd k)
unfolding give_back
give_back-Limits fd k h v =
    let k1 = (file_close fd k).0 in
    let c = file_close-Calm fd k in
    let w = Calm-Limits k k1 c v in
    let small : sub32 k1.process_number 1 ≤ 6 = omega (arith, c.number, h, v.number) in
    record {
      console = w.console;
      current = block (sub32 k1.process_number 1) small refl;
      number = small;
      recover = w.recover;
      frame = w.frame;
      numbers = w.numbers;
      slots = w.slots;
      home = w.home;
    }

abbrev pub Executed : Option (Kernel × ℤ) → Type 0
Executed none = Unit {0}
Executed (some (k, r)) = Limits k

continue-Executed :
    (fd : ℤ) (buf : Memory) (k : Kernel) (o : Option Pcb)
    → Limits k
    → Copies (k.pcbs k.current_pcb) o
    → Executed (continue fd buf k o)
continue-Executed fd buf k none v w = tt
continue-Executed fd buf k (some p) v w =
    start_program-Limits fd buf _
      (Calm-Limits k _ (update-Calm k.current_pcb p k w.num w.list w.terminal) v)

with_arguments_at-Executed :
    (fuel : ℕ) (command : Memory) (fd : ℤ) (buf : Memory) (k : Kernel) (o : Option ℕ)
    → Limits k
    → Executed (with_arguments_at fuel command fd buf k o)
with_arguments_at-Executed fuel command fd buf k none v = tt
with_arguments_at-Executed fuel command fd buf k (some i) v =
    continue-Executed fd buf k _ v (copy_arguments-Copies fuel command i 0 (k.pcbs k.current_pcb))

execute-Executed :
    (fuel : ℕ) (command : Memory) (fd : ℤ) (buf : Memory) (k : Kernel)
    → 1 ≤ k.process_number
    → Limits k
    → Executed (execute fuel command fd buf k)
unfolding execute
execute-Executed fuel command fd buf k h v =
    if_cases Executed (is_zero (strncmp buf (bytes_of magic) 4))
      (λ e.
        with_arguments_at-Executed fuel command fd buf k
          (skip_spaces fuel command (name_end command 0 31 + 1)) v)
      (λ e. give_back-Limits fd k h v)

pub sys_execute-Executed :
    (fuel : ℕ) (command : Option Memory) (stack : Memory) (k : Kernel)
    → Limits k
    → Executed (sys_execute fuel command stack k)
unfolding sys_execute
sys_execute-Executed fuel none stack k v = v
sys_execute-Executed fuel (some command) stack k v =
    if_cases Executed ((command 0 == 0) || leb 6 k.process_number) (λ e. v)
      (λ e.
        let (k1, fd, buf) = open_program command stack k in
        let w = open_program-Limits command stack k (ground arith) v in
        execute-Executed fuel command fd buf k1 w.1 w.0)
