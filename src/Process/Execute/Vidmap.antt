-- ===== src/Process/Execute/Vidmap.antt =====
-- What sys_vidmap hands to a program.
use orca_os.Base.{
  ℕ, zero, suc, ◌+◌, ◌-◌, ◌*◌, ◌/◌, ◌%◌, ◌^◌, ◌<◌, ◌≤◌, ◌≡◌, refl, subst, sym, ap, ◌∙◌, arith, pos,
  ltb, leb, ◌==◌, ◌&&◌, ◌||◌, false, true, if◌then◌else◌, if_true, some, Memory, update, load32,
  for_range,
}
use orca_os.Paging
use orca_os.Paging.{Pages, page_init, map_program}
use orca_os.Paging.Entries.{IsBlank, IsLinked}
use orca_os.Paging.Translate.{translate, physical, translate-whole, may_write, may_write-screen}
use orca_os.Process.{Kernel}
use orca_os.Process.Execute.{user_frame, on_frame, store_user, sys_vidmap}

store_below :
    (a c : ℕ) (k : Kernel)
    → a < 0x8400000
    → store_user a c k ≡ on_frame (λ m. update m (a - 0x8000000) c) k
unfolding store_user
store_below a c k h = if_true (ltb a 0x8400000) _ _ (ground arith)

-- `k'` is `k` with the bytes `first` to `first + left` of `f` at the program's address `s`.
record Stored (f : ℕ → ℕ) (s first left : ℕ) (k k' : Kernel) : Type 0 where
  pages : k'.pages ≡ k.pages
  console : k'.console ≡ k.console
  bytes :
      (x : ℕ)
      → k'.frames (user_frame k) x ≡ (
          if leb (s - 0x8000000 + first) x && ltb x (s - 0x8000000 + first + left)
          then f (x - (s - 0x8000000))
          else k.frames (user_frame k) x)

store_loop :
    (f : ℕ → ℕ) (s left first : ℕ) (k : Kernel)
    → 0x8000000 ≤ s
    → s + first + left ≤ 0x8400000
    → Stored f s first left k (for_range left first (λ i. store_user (s + i) (f i)) k)
unfolding for_range
store_loop f s zero first k lo hi = record {
  pages = refl;
  console = refl;
  bytes = λ x. ground arith;
}
store_loop f s (suc left) first k lo hi =
    let a = s + first - 0x8000000 in
    let k1 = on_frame (λ m. update m a (f first)) k in
    let ih = store_loop f s left (first + 1) k1 lo (omega arith) in
    let w : Stored f s first (suc left) k
        (for_range left (first + 1) (λ i. store_user (s + i) (f i)) k1) =
      record { pages = ih.pages; console = ih.console; bytes = λ x. ground (arith, ih.bytes x) } in
    subst
      (λ q.
        Stored f s first (suc left) k
          (for_range left (first + 1) (λ i. store_user (s + i) (f i)) q))
      (sym (store_below (s + first) (f first) k (omega arith))) w

frame-vidmap :
    (n : ℕ) (p : Pages)
    → n < 1022
    → ((Paging.system_call_vidmap (map_program n p)).directory 32).upper_address ≡ 2 + n
unfolding Paging.system_call_vidmap map_program
frame-vidmap n p h = ground arith

screen_page : (n x : ℕ) → x < 0x1000 → physical n (0x8400000 + x) ≡ some (0xB8000 + x)
unfolding physical
screen_page n x h = ground arith

-- The byte `i` of the address of the screen.
abbrev address_byte : ℕ → ℕ
address_byte i = 0x8400000 / 2 ^ (8 * i) % 2 ^ 8

load-stored :
    (m : Memory) (b : ℕ)
    → ((x : ℕ) → b ≤ x → x < b + 4 → m x ≡ address_byte (x - b))
    → load32 m b ≡ 0x8400000
unfolding load32
load-stored m b h =
    let byte : (j : ℕ) → j < 4 → m (b + j) ≡ address_byte j = λ j l.
      h (b + j) (omega arith) (omega arith)
      ∙ ap address_byte (let e : b + j - b ≡ j = omega arith in e) in
    let first : m b ≡ 0 = ap m (let e : b ≡ b + 0 = omega arith in e) ∙ byte 0 (omega arith) in
    ground (arith, first, byte 1 (omega arith), byte 2 (omega arith), byte 3 (omega arith))

-- In a kernel whose paging has been set up from blank tables and that runs a program numbered below
-- 1022: given the address of four bytes of the program, `sys_vidmap` stores there the address
-- 0x8400000, which it also returns, and from then on the page at that address is the screen, and
-- every entry on the way to it lets programs read and write. The terminals are as before.
pub sys_vidmap_lem :
    (p : Pages) (n : ℕ) (k : Kernel) (s x : ℕ)
    → IsBlank p
    → IsLinked p
    → n < 1022
    → k.pages ≡ map_program n (page_init p)
    → 0x8000000 ≤ s
    → s + 4 ≤ 0x8400000
    → x < 0x1000
    → let (k', r) = sys_vidmap s k in
      (r ≡ pos 0x8400000)
      × (load32 (k'.frames (2 + n)) (s - 0x8000000) ≡ 0x8400000)
      × (translate k'.pages (0x8400000 + x) ≡ some (0xB8000 + x))
      × (may_write k'.pages (0x8400000 + x) ≡ true)
      × (k'.console ≡ k.console)
unfolding sys_vidmap
sys_vidmap_lem p n k s x blank linked hn e lo hi hx =
    let k0 = record k { pages = Paging.system_call_vidmap k.pages } in
    let k1 = for_range 4 0 (λ i. store_user (s + i) (address_byte i)) k0 in
    let w = store_loop address_byte s 4 0 k0 lo (omega arith) in
    let here : user_frame k0 ≡ 2 + n =
      ap (λ q. ((Paging.system_call_vidmap q).directory 32).upper_address) e
      ∙ frame-vidmap n (page_init p) hn in
    let stored : load32 (k1.frames (2 + n)) (s - 0x8000000) ≡ 0x8400000 =
      load-stored (k1.frames (2 + n)) (s - 0x8000000)
        (λ y l l'. ap (λ m. k1.frames m y) (sym here) ∙ (w.bytes y ∙ ground arith)) in
    let shown : translate k1.pages (0x8400000 + x) ≡ some (0xB8000 + x) =
      ap (λ q. translate q (0x8400000 + x)) (w.pages ∙ ap Paging.system_call_vidmap e)
      ∙ (translate-whole p blank linked n (0x8400000 + x) hn (omega arith) ∙ screen_page n x hx) in
    let opened : may_write k1.pages (0x8400000 + x) ≡ true =
      ap (λ q. may_write q (0x8400000 + x)) (w.pages ∙ ap Paging.system_call_vidmap e)
      ∙ may_write-screen p blank linked n (0x8400000 + x) hn (omega arith) (omega arith)
          (omega arith) in
    let valid : ((s == 0) || ltb s 0x8000000 || ltb 0x8400000 s) ≡ false = ground arith in
    rw valid (refl, stored, shown, opened, w.console)
