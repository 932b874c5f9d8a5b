-- ===== src/Keyboard/Read/Copy.antt =====
-- What `terminal_read` hands over, and that it returns.
use orca_os.Base.{
  ℕ, zero, suc, ◌+◌, ◌-◌, ◌≤◌, ◌<◌, ◌≡◌, refl, arith, min, ℤ, pos, pos_part, ltb, leb, ◌==◌, ◌&&◌,
  if◌then◌else◌, Memory, update, for_range,
}
use orca_os.Console.{Console}
use orca_os.Keyboard.Read.{copy_line, take_line}

copy_line-end :
    (line : ℕ → ℕ) (idx left i : ℕ) (buf : Memory)
    → i ≤ idx
    → (copy_line line idx left i buf).0 ≡ min (i + left) idx
unfolding copy_line
copy_line-end line idx zero i buf h = ground arith
copy_line-end line idx (suc left) i buf h =
    ground (arith, copy_line-end line idx left (i + 1) (update buf i (line i)))

copy_line-buf :
    (line : ℕ → ℕ) (idx left i : ℕ) (buf : Memory) (j : ℕ)
    → i ≤ idx
    → (copy_line line idx left i buf).1 j
      ≡ (if leb i j && ltb j (min (i + left) idx) then line j else buf j)
unfolding copy_line
copy_line-buf line idx zero i buf j h = ground arith
copy_line-buf line idx (suc left) i buf j h =
    ground (arith, copy_line-buf line idx left (i + 1) (update buf i (line i)) j)

zero_loop :
    (n i : ℕ) (b : Memory) (j : ℕ)
    → for_range n i (λ j b. update b j 0) b j ≡ (if leb i j && ltb j (i + n) then 0 else b j)
unfolding for_range
zero_loop zero i b j = ground arith
zero_loop (suc n) i b j = ground (arith, zero_loop n (i + 1) (update b i 0) j)

-- With room for at least one byte: as much of the typed line as leaves room for a zero is handed
-- over, the rest of the `nbytes` bytes is zero, nothing behind them is written, the result counts
-- the bytes of the line and one zero, and the line is empty afterwards.
pub take_line_lem :
    (buf : Memory) (n : ℕ) (c : Console)
    → 0 < n
    → let (d, out, r) = take_line buf (pos n) c in
      let len = min (n - 1) (c.terminal.idxs c.on_display) in
      (r ≡ pos (len + 1))
      × ((j : ℕ)
          → out j ≡ (
              if ltb j len then c.terminal.buffer j c.on_display else if ltb j n then 0 else buf j))
      × (d.terminal.idxs c.on_display ≡ 0)
unfolding take_line
take_line_lem buf n c h =
    let t = c.on_display in
    let line : ℕ → ℕ = λ i. c.terminal.buffer i t in
    let idx = c.terminal.idxs t in
    let e = copy_line-end line idx (n - 1) 0 buf (omega arith) in
    (
      ground (arith, e),
      λ j. ground (
        arith,
        e,
        copy_line-buf line idx (n - 1) 0 buf j,
        zero_loop (n - (copy_line line idx (n - 1) 0 buf).0) (copy_line line idx (n - 1) 0 buf).0
            (update (copy_line line idx (n - 1) 0 buf).1 (copy_line line idx (n - 1) 0 buf).0 0) j,
      ),
      ground arith,
    )

-- With a count of zero or less the first byte of the buffer is written all the same, and no other.
pub take_line_no_room :
    (buf : Memory) (nbytes : ℤ) (c : Console)
    → pos_part nbytes ≡ 0
    → let (d, out, r) = take_line buf nbytes c in
      (r ≡ pos 1) × ((j : ℕ) → out j ≡ (if j == 0 then 0 else buf j))
unfolding take_line copy_line for_range
take_line_no_room buf nbytes c h = rw h (refl, λ j. ground arith)
