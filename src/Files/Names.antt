-- ===== src/Files/Names.antt =====
-- The two ways to a directory entry: by name and by index.
use orca_os.Base.{
  ℕ, zero, suc, ◌+◌, ◌*◌, ◌^◌, ◌≤◌, ◌<◌, ◌≡◌, ◌⊎◌, inl, inr, refl, sym, subst, ap, arith, ==_iff, ℤ,
  pos, negsuc, minus_one, pos_part, to_i32, true, false, ltb, ◌==◌, if_cases, if_false, ◌∙◌,
  Bool-cases, Option, none, some, List, load32, bytes_of, u8, u32,
}
use orca_os.Strings.{strlen, strncmp}
use orca_os.Strings.Compare.{Agree, IsBytes, strncmp-zero_iff}
use orca_os.Files.{
  Image, Dentry, dentry_at, is_zero, find_entry, fill, read_dentry_by_name, read_dentry_by_index,
}

-- Where entry `k` of the directory stands.
abbrev pub entry : Image → ℕ → ℕ
entry f k = f.boot_block + 64 + 64 * k

-- The name agrees with that of entry `k` on 31 bytes, up to its first zero.
abbrev pub Matches : Image → List ℕ → ℕ → Type 0
Matches f fname k = Agree (bytes_of fname) (λ i. f.mem (entry f k + i)) 0 31

-- What the search over `left` entries from entry `i` has to find.
abbrev Finds : Image → List ℕ → ℕ → ℕ → Option ℕ → Type 0
Finds f fname i left none = (j : ℕ) → i ≤ j → j < i + left → ¬ Matches f fname j
Finds f fname i left (some a) =
    (k : ℕ) × (i ≤ k)
    × (k < i + left)
    × (a ≡ entry f k)
    × Matches f fname k
    × ((j : ℕ) → i ≤ j → j < k → ¬ Matches f fname j)

is_zero_iff : (z : ℤ) → is_zero z ≡ true → z ≡ pos 0
is_zero_iff (pos n) h = ground arith
is_zero_iff (negsuc n) h = cc

module _ (f : Image) (fname : List ℕ) (b1 : IsBytes (bytes_of fname)) (b2 : IsBytes f.mem) where
  tested :
      (k : ℕ)
      → is_zero (strncmp (bytes_of fname) (λ i. f.mem (entry f k + i)) 31) ≡ true
      → Matches f fname k
  tested k h =
      (strncmp-zero_iff (bytes_of fname) (λ i. f.mem (entry f k + i)) 31 b1
          (λ a. b2 (entry f k + a))).0
        (is_zero_iff _ h)

  refuted :
      (k : ℕ)
      → is_zero (strncmp (bytes_of fname) (λ i. f.mem (entry f k + i)) 31) ≡ false
      → ¬ Matches f fname k
  refuted k h m =
      let e =
        (strncmp-zero_iff (bytes_of fname) (λ i. f.mem (entry f k + i)) 31 b1
            (λ a. b2 (entry f k + a))).1
          m in
      false_zero e h
    where
      false_zero : {z : ℤ} → z ≡ pos 0 → is_zero z ≡ false → ⊥
      false_zero e h = ground arith

  -- Entry `i` does not match, and no entry from the next to `k` does.
  none_before :
      (i k : ℕ)
      → ¬ Matches f fname i
      → ((j : ℕ) → i + 1 ≤ j → j < k → ¬ Matches f fname j)
      → (j : ℕ) → i ≤ j
      → j < k
      → ¬ Matches f fname j
  none_before i k n w j p q m = elim (Bool-cases (i == j)) [
    | inl e ↦ n (subst (Matches f fname) (sym ((==_iff i j).0 e)) m)
    | inr e ↦ w j (ground arith) q m
  ]

  later :
      (i left : ℕ) (o : Option ℕ)
      → ¬ Matches f fname i
      → Finds f fname (i + 1) left o
      → Finds f fname i (suc left) o
  later i left none n w =
      λ j p q. none_before i (i + suc left) n (λ j p q. w j p (omega arith)) j p q
  later i left (some a) n (k, p, q, e, m, first) =
      (k, omega arith, omega arith, e, m, none_before i k n first)

  find_entry-Finds :
      (left i a : ℕ)
      → a ≡ entry f i
      → Finds f fname i left (find_entry f.mem (bytes_of fname) left a)
  unfolding find_entry
  find_entry-Finds zero i a e = λ j p q. absurd (omega arith)
  find_entry-Finds (suc left) i a e =
      if_cases (Finds f fname i (suc left))
        (is_zero (strncmp (bytes_of fname) (λ i'. f.mem (a + i')) 31)) {x = some a}
        (λ h. (i, omega arith, omega arith, e, tested i (rw e at h), λ j p q. absurd (omega arith)))
        (λ h.
          later i left (find_entry f.mem (bytes_of fname) left (a + 64)) (refuted i (rw e at h))
            (find_entry-Finds left (i + 1) (a + 64) (omega arith)))

  abbrev count : ℕ
  count = load32 f.mem f.boot_block

  -- What the look-up by name may come to: the first entry that matches, which the look-up by its
  -- index gives too, or -1.
  abbrev pub Looked : Dentry → Type 0
  Looked d =
      ((k : ℕ) × (k < count)
        × (strlen fname ≤ 32)
        × Matches f fname k
        × ((j : ℕ) → j < k → ¬ Matches f fname j)
        × (read_dentry_by_name f (some fname) (some d)
            ≡ (pos 0, some (dentry_at f.mem (entry f k))))
        × (read_dentry_by_index f k (some d) ≡ (pos 0, some (dentry_at f.mem (entry f k)))))
      ⊎ (((32 < strlen fname) ⊎ ((j : ℕ) → j < count → ¬ Matches f fname j))
          × (read_dentry_by_name f (some fname) (some d) ≡ (minus_one, some d)))

  by_index :
      (d : Dentry) (k : ℕ)
      → k < count
      → count < 2 ^ 28
      → read_dentry_by_index f k (some d) ≡ (pos 0, some (dentry_at f.mem (entry f k)))
  unfolding read_dentry_by_index
  by_index d k h hc = ground (
    arith,
    ap (dentry_at f.mem)
        (let e : f.boot_block + 64 + u32 (16 * k) * 4 ≡ entry f k = omega arith in e),
  )

  by_name :
      (d : Dentry) (o : Option ℕ)
      → count < 2 ^ 28
      → strlen fname ≤ 32
      → find_entry f.mem (bytes_of fname) count (f.boot_block + 64) ≡ o
      → read_dentry_by_name f (some fname) (some d) ≡ fill f.mem o (some d)
  unfolding read_dentry_by_name
  by_name d o hc hl e =
      let s : pos_part (to_i32 count) ≡ count = ground arith in
      if_false (ltb 32 (u8 (strlen fname))) _ _ (ground arith)
      ∙ ap (λ o. fill f.mem o (some d))
          (ap (λ n. find_entry f.mem (bytes_of fname) n (f.boot_block + 64)) s ∙ e)

  too_long :
      (d : Dentry)
      → strlen fname < 256
      → 32 < strlen fname
      → read_dentry_by_name f (some fname) (some d) ≡ (minus_one, some d)
  unfolding read_dentry_by_name
  too_long d h k = ground arith

  searched :
      (d : Dentry) (o : Option ℕ)
      → count < 2 ^ 28
      → strlen fname ≤ 32
      → find_entry f.mem (bytes_of fname) count (f.boot_block + 64) ≡ o
      → Finds f fname 0 count o
      → Looked d
  searched d none hc hl e w =
      inr (inr (λ j p. w j (omega arith) (omega arith)), by_name d none hc hl e)
  searched d (some a) hc hl e (k, p, q, g, m, first) = inl (
    k,
    omega arith,
    hl,
    m,
    λ j. first j (omega arith),
    by_name d (some a) hc hl e ∙ ap (λ b. (pos 0, some (dentry_at f.mem b))) g,
    by_index d k (omega arith) hc,
  )

  -- With memory and a name of bytes, a name of fewer than 256 of them and a directory of fewer than
  -- 2 ^ 28 entries: either some entry matches, and the look-up by name gives the first that does, just as the look-up by its
  -- index; or the name is longer than 32 bytes or no entry matches, and the result is -1.
  pub read_dentry_by_name_lem : (d : Dentry) → strlen fname < 256 → count < 2 ^ 28 → Looked d
  read_dentry_by_name_lem d hl hc = elim (Bool-cases (ltb 32 (strlen fname))) [
    | inl e ↦ inr (inl (ground arith), too_long d hl (ground arith))
    | inr e ↦
        searched d _ hc (ground arith) refl
          (find_entry-Finds count 0 (f.boot_block + 64) (omega arith))
  ]
