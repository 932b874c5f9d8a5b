-- ===== src/Process/Calls/Close.antt =====
-- Opening takes a free descriptor; what closing it does depends on the driver.
use orca_os.Base.{
  ℕ, zero, suc, ◌+◌, ◌≤◌, ◌<◌, ◌≡◌, ◌⊎◌, inl, inr, refl, ◌∙◌, arith, ℤ, pos, minus_one, ◌==◌,
  ==_iff, if◌then◌else◌, if_true, if_false, Bool-cases, none, some, List,
}
use orca_os.Files.{Dentry, read_dentry_by_name}
use orca_os.Rtc.{rtc_open, rtc_close}
use orca_os.Process.{Kernel, current_fd}
use orca_os.Process.Drivers.{local_dentry, file_close, directory_close}
use orca_os.Process.Calls.{
  Events, ret, open_as, open_free, open_looked, sys_open, call_close, sys_close,
}

abbrev pub IsFree : Kernel → ℕ → Type 0
IsFree k i = (current_fd i k).flags ≡ 0

-- What the search among `left` descriptors from `i` on may come to.
abbrev pub Opens : Events → Dentry → ℕ → ℕ → Kernel → Kernel × ℤ → Type 0
Opens ev e i left k r =
    ((j : ℕ) × (i ≤ j)
      × (j < i + left)
      × IsFree k j
      × ((m : ℕ) → i ≤ m → m < j → ¬ IsFree k m)
      × (r ≡ (open_as ev e j k, pos j)))
    ⊎ (((m : ℕ) → i ≤ m → m < i + left → ¬ IsFree k m) × (r ≡ (k, minus_one)))

open_free-Opens :
    (ev : Events) (e : Dentry) (i left : ℕ) (k : Kernel)
    → Opens ev e i left k (open_free ev e i left k)
unfolding open_free
open_free-Opens ev e i zero k = inr (λ m p q. absurd (omega arith), refl)
open_free-Opens ev e i (suc left) k = elim (Bool-cases ((current_fd i k).flags == 0)) [
  | inl f ↦ inl (
    i,
    omega arith,
    omega arith,
    (==_iff _ 0).0 f,
    λ m p q. absurd (omega arith),
    if_true _ _ _ f,
  )
  | inr f ↦ elim (open_free-Opens ev e (i + 1) left k) [
    | inl (j, p, q, g, h, r) ↦
        inl (j, omega arith, omega arith, g, taken i j (ground arith) h, if_false _ _ _ f ∙ r)
    | inr (h, r) ↦ inr (taken_all i left (ground arith) h, if_false _ _ _ f ∙ r)
  ]
]
  where
    taken :
        (i j : ℕ)
        → ¬ IsFree k i
        → ((m : ℕ) → i + 1 ≤ m → m < j → ¬ IsFree k m)
        → (m : ℕ) → i ≤ m
        → m < j
        → ¬ IsFree k m
    taken i j n h m p q g = elim (Bool-cases (i == m)) [
      | inl e ↦ n (ground arith)
      | inr e ↦ h m (ground arith) q g
    ]

    taken_all :
        (i left : ℕ)
        → ¬ IsFree k i
        → ((m : ℕ) → i + 1 ≤ m → m < i + 1 + left → ¬ IsFree k m)
        → (m : ℕ) → i ≤ m
        → m < i + suc left
        → ¬ IsFree k m
    taken_all i left n h m p q g = taken i (i + suc left) n (λ m p q. h m p (omega arith)) m p q g

-- A name that is found is opened at the lowest free descriptor from 2 to 7, whose number is the
-- result; without a free one the result is -1 and nothing changes.
pub sys_open_lem :
    (ev : Events) (name : List ℕ) (k : Kernel) (e : Dentry)
    → read_dentry_by_name k.image (some name) (some local_dentry) ≡ (pos 0, some e)
    → Opens ev e 2 6 k (sys_open ev (some name) k)
unfolding sys_open open_looked
sys_open_lem ev name k e h = rw h (open_free-Opens ev e 2 6 k)

-- A descriptor from 2 to 7 that was opened for a directory or a regular file is free again once it
-- is closed: the close returns 0, and every other descriptor is as it was before the open.
pub sys_close-open_as :
    (ev : Events) (e : Dentry) (j : ℕ) (k : Kernel)
    → 2 ≤ j
    → j < 8
    → (e.file_type ≡ 1) ⊎ (e.file_type ≡ 2)
    → (k' : Kernel) × (sys_close ev (pos j) (open_as ev e j k) ≡ ret k' none (pos 0))
      × IsFree k' j
      × ((i : ℕ) → current_fd i k' ≡ (if i == j then current_fd j k' else current_fd i k))
unfolding sys_close open_as call_close directory_close file_close
sys_close-open_as ev e j k lo hi (inl d) =
    ((directory_close (pos j) (open_as ev e j k)).0, ground arith, ground arith, λ i. ground arith)
sys_close-open_as ev e j k lo hi (inr f) =
    ((file_close (pos j) (open_as ev e j k)).0, ground arith, ground arith, λ i. ground arith)

-- A descriptor from 2 to 7 that was opened for the clock is in use even after it has been closed,
-- and the close returns 0.
pub sys_close-open_as_rtc :
    (ev : Events) (e : Dentry) (j : ℕ) (k : Kernel)
    → 2 ≤ j
    → j < 8
    → e.file_type ≡ 0
    → (k' : Kernel) × (sys_close ev (pos j) (open_as ev e j k) ≡ ret k' none (pos 0))
      × ((current_fd j k').flags ≡ 1)
unfolding sys_close open_as call_close rtc_close rtc_open
sys_close-open_as_rtc ev e j k lo hi z =
    let k1 = open_as ev e j k in
    (record k1 { clock = (rtc_close ev.reg_a k1.clock).0 }, ground arith, ground arith)
