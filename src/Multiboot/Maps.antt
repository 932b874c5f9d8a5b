-- ===== src/Multiboot/Maps.antt =====
-- The loop over the memory map ends.
use orca_os.Base.{
  ℕ, zero, suc, ◌+◌, ◌^◌, ◌<◌, ◌≤◌, ◌≡◌, refl, arith, ltb, true, ap, ◌∙◌, if_true, Option, some,
  List, Memory, load32, u32, if_cases,
}
use orca_os.Screen.{Screen}
use orca_os.Multiboot.{Info, check_flag, say_map, say_layout, say_map_entry}

-- The map's entries from the address `a` on: each ends, and the next begins, below the 32-bit
-- limit, and the last one ends at `last` or behind it.
pub data Walk (m : Memory) (last : ℕ) : ℕ → Type 0 where
  ends : (a : ℕ) → last ≤ a → Walk m last a
  next :
      (a : ℕ)
      → a < last
      → a + load32 m a + 4 < 2 ^ 32
      → Walk m last (a + load32 m a + 4)
      → Walk m last a

module _ (text : ℕ → List ℕ) (m : Memory) where
  say_map_total :
      (last fuel a : ℕ) (s : Screen)
      → Walk m last a
      → last ≤ a + fuel
      → (t : Screen) × (say_map text (suc fuel) m last a s ≡ some t)
  unfolding say_map
  say_map_total last fuel a s (ends b h) l = (s, ground (arith, h))
  say_map_total last zero a s (next b h small w) l = absurd (omega arith)
  say_map_total last (suc fuel) a s (next b h small w) l =
      let e : ltb a last ≡ true = ground (arith, h) in
      let same : u32 (a + load32 m a + 4) ≡ a + load32 m a + 4 = omega (arith, small) in
      let r =
        say_map_total last fuel (a + load32 m a + 4) (say_map_entry text m a s) w (omega arith) in
      (
        r.0,
        if_true (ltb b last) _ _ e
            ∙ (ap (λ n. say_map text (suc fuel) m last n (say_map_entry text m b s)) same ∙ r.1),
      )

  -- One more than the length of the map is enough fuel.
  pub say_layout_total :
      (fuel : ℕ) (i : Info) (s : Screen)
      → i.mmap_addr + i.mmap_length < 2 ^ 32
      → Walk m (i.mmap_addr + i.mmap_length) i.mmap_addr
      → i.mmap_length < fuel
      → (t : Screen) × (say_layout text fuel m i s ≡ some t)
  unfolding say_layout
  say_layout_total zero i s small h l = absurd (omega arith)
  say_layout_total (suc fuel) i s small h l =
      let last : u32 (i.mmap_addr + i.mmap_length) ≡ i.mmap_addr + i.mmap_length = omega arith in
      if_cases (λ (o : Option Screen). (t : Screen) × (o ≡ some t)) (check_flag i.flags 6)
        (λ e.
          rw last (say_map_total (i.mmap_addr + i.mmap_length) fuel i.mmap_addr _ h (omega arith)))
        (λ e. (_, refl))
