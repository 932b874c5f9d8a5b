-- ===== src/Process/Execute/Load.antt =====
-- How the program's file gets into its four megabytes.
use orca_os.Base.{
  ℕ, zero, suc, ◌+◌, ◌-◌, ◌≤◌, ◌<◌, ◌≡◌, ◌≢◌, refl, subst, sym, ap, ◌∙◌, arith, min, ℤ, pos, ltb,
  leb, ◌&&◌, if◌then◌else◌, Option, some, Memory, update, load32, for_range,
}
use orca_os.Files.{Image, inode_start}
use orca_os.Files.Read.{file_byte}
use orca_os.Paging.{Pages}
use orca_os.Process.{Kernel, current_fd}
use orca_os.Process.Drivers.{file_close}
use orca_os.Process.Execute.{image_at, user_frame, on_frame, contents, load_image}
use orca_os.Process.Execute.Steps.{Steady, Steady-trans, file_close-Steady}
use orca_os.Process.Execute.Opening.{file_read_at}

copy_header :
    (left first : ℕ) (buf m : Memory) (x : ℕ)
    → for_range left first (λ i m. update m (image_at + i) (buf i)) m x ≡ (
        if leb (image_at + first) x && ltb x (image_at + first + left)
        then buf (x - image_at)
        else m x)
unfolding for_range
copy_header zero first buf m x = ground arith
copy_header (suc left) first buf m x =
    ground (arith, copy_header left (first + 1) buf (update m (image_at + first) (buf first)) x)

-- The end of `load_image`, on what file_read has given.
abbrev place : Kernel × Option Memory × ℤ → Kernel
place (k2, out, r) =
    on_frame (λ m a. if ltb a (image_at + 40) then m a else contents out m (a - (image_at + 40)))
      (file_close (pos 2) k2).0

-- `k'` is `k` with the file at `a` of the disk in the program's memory.
pub record Loaded (k : Kernel) (image : Image) (a : ℕ) (k' : Kernel) : Type 0 where
  pub others : Steady (record k { frames = k'.frames }) k'
  pub bytes :
      (j : ℕ)
      → j < load32 image.mem a
      → k'.frames (user_frame k) (image_at + j) ≡ file_byte image a j
  pub below : (x : ℕ) → x < image_at → k'.frames (user_frame k) x ≡ k.frames (user_frame k) x
  pub apart : (n x : ℕ) → n ≢ user_frame k → k'.frames n x ≡ k.frames n x

-- The header is in place.
abbrev with_header : Memory → Kernel → Kernel
with_header buf k = on_frame (λ m. for_range 40 0 (λ i m. update m (image_at + i) (buf i)) m) k

update_at : (f : ℕ → Memory) (n n' : ℕ) (m : Memory) (x : ℕ) → n ≡ n' → update f n m n' x ≡ m x
update_at f n n' m x e = ground arith

update_off :
    (f : ℕ → Memory) (n n' j : ℕ) (m : Memory) (x : ℕ) → n ≡ n' → j ≢ n' → update f n m j x ≡ f j x
update_off f n n' j m x e ne = ground arith

frames_place :
    (buf out : Memory) (r : ℤ) (k k2 : Kernel)
    → Steady (with_header buf k) k2
    → (x : ℕ)
    → (place (k2, some out, r)).frames (user_frame k) x ≡ (
        if ltb x (image_at + 40)
        then (if leb image_at x then buf (x - image_at) else k.frames (user_frame k) x)
        else out (x - (image_at + 40)))
frames_place buf out r k k2 w x =
    let k3 = (file_close (pos 2) k2).0 in
    let v = Steady-trans (with_header buf k) k2 k3 w (file_close-Steady (pos 2) k2) in
    let n = user_frame k in
    let e : user_frame k3 ≡ n = ap (λ (p : Pages). (p.directory 32).upper_address) v.pages in
    let f : k3.frames (user_frame k3) x ≡ (with_header buf k).frames n x =
      ap (λ (g : ℕ → Memory). g (user_frame k3) x) v.frames
      ∙ ap (λ i. (with_header buf k).frames i x) e in
    let g : (with_header buf k).frames n x
        ≡ for_range 40 0 (λ i m. update m (image_at + i) (buf i)) (k.frames n) x =
      update_at k.frames n n _ x refl in
    update_at k3.frames (user_frame k3) n _ x e
    ∙ ground (arith, f, g, copy_header 40 0 buf (k.frames n) x)

place-Steady :
    (buf out : Memory) (r : ℤ) (k k2 : Kernel)
    → Steady (with_header buf k) k2
    → Steady (record k { frames = (place (k2, some out, r)).frames }) (place (k2, some out, r))
place-Steady buf out r k k2 w =
    let v = Steady-trans (with_header buf k) k2 _ w (file_close-Steady (pos 2) k2) in
    record {
      image = v.image;
      console = v.console;
      current = v.current;
      number = v.number;
      schedule = v.schedule;
      pages = v.pages;
      frames = refl;
      arguments = v.arguments;
      arg_position = v.arg_position;
      process_num = v.process_num;
    }

apart_place :
    (buf out : Memory) (r : ℤ) (k k2 : Kernel)
    → Steady (with_header buf k) k2
    → (n x : ℕ) → n ≢ user_frame k
    → (place (k2, some out, r)).frames n x ≡ k.frames n x
apart_place buf out r k k2 w n x ne =
    let k3 = (file_close (pos 2) k2).0 in
    let v = Steady-trans (with_header buf k) k2 k3 w (file_close-Steady (pos 2) k2) in
    let e = ap (λ (p : Pages). (p.directory 32).upper_address) v.pages in
    update_off k3.frames (user_frame k3) (user_frame k) n _ x e ne
    ∙ (ap (λ (g : ℕ → Memory). g n x) v.frames
        ∙ update_off k.frames (user_frame k) (user_frame k) n _ x refl ne)

pub load_image-Loaded :
    (image : Image) (inode : ℕ) (buf : Memory) (k : Kernel)
    → k.image ≡ image
    → (current_fd 2 k).inode ≡ inode
    → (current_fd 2 k).position ≡ 40
    → inode < load32 image.mem (image.boot_block + 4)
    → ((j : ℕ) → j < 40 → buf j ≡ file_byte image (inode_start image inode) j)
    → 40 ≤ load32 image.mem (inode_start image inode)
    → load32 image.mem (inode_start image inode) ≤ 0x400000 - image_at
    → Loaded k image (inode_start image inode) (load_image (pos 2) buf k)
unfolding load_image
load_image-Loaded image inode buf k ei en ep hi header long fits =
    let k1 = with_header buf k in
    let m = k1.frames (user_frame k1) in
    let r =
      file_read_at image inode 40 0x400000 (λ j. m (image_at + 40 + j)) k1 ei en ep (omega arith) hi
        (omega arith) in
    let a = inode_start image inode in
    let t = pos (min 0x400000 (load32 image.mem a - 40)) in
    let loaded : Loaded k image a (place (r.0, some r.1, t)) = record {
      others = place-Steady buf r.1 t k r.0 r.4;
      bytes = λ j l.
          ground (arith, frames_place buf r.1 t k r.0 r.4 (image_at + j), r.3 (j - 40), header j);
      below = λ x l. ground (arith, frames_place buf r.1 t k r.0 r.4 x);
      apart = apart_place buf r.1 t k r.0 r.4;
    } in
    subst (Loaded k image a) (sym (ap place r.2)) loaded
