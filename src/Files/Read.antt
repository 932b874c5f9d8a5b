-- ===== src/Files/Read.antt =====
-- `read_data`, which walks the data blocks with pointers, against direct indexing of a file.
use orca_os.Base.{
  ℕ, zero, suc, ◌+◌, ◌-◌, ◌*◌, ◌/◌, ◌%◌, ◌^◌, ◌<◌, ◌≡◌, refl, arith, min, to_i32, Bool-cases, inl,
  inr, ltb, leb, ◌&&◌, if◌then◌else◌, some, Memory, update, load32,
}
use orca_os.Files.{Image, block_size, block_start, inode_start, read_loop, read_data}

-- Byte `k` of the file whose inode starts at `a`: the inode lists the file's blocks in order.
unfoldable pub file_byte : Image → ℕ → ℕ → ℕ
file_byte f a k = f.mem (block_start f (load32 f.mem (a + 4 + k / block_size * 4)) + k % block_size)

-- The loop's three variables stand where byte `x` of the file is.
record IsAt (f : Image) (a x ptr block cur : ℕ) : Type 0 where
  pointer : ptr ≡ a + 4 + x / block_size * 4
  start : block ≡ block_start f (load32 f.mem ptr)
  offset_in : cur ≡ x % block_size

advance :
    (f : Image) (a x y ptr block cur : ℕ)
    → y ≡ x + 1
    → IsAt f a x ptr block cur
    → let turn = leb block_size (cur + 1) in
      IsAt f a y
        (if turn then ptr + 4 else ptr)
        (if turn then block_start f (load32 f.mem (ptr + 4)) else block)
        (if turn then 0 else cur + 1)
advance f a x y ptr block cur s v = elim (Bool-cases (leb block_size (cur + 1))) [
  | inl e ↦ rw e (record {
    pointer = ground (arith, v.pointer, v.offset_in);
    start = refl;
    offset_in = ground (arith, v.offset_in);
  })
  | inr e ↦ rw e (record {
    pointer = ground (arith, v.pointer, v.offset_in);
    start = v.start;
    offset_in = ground (arith, v.offset_in);
  })
]

byte_read :
    (f : Image) (a x ptr block cur : ℕ)
    → IsAt f a x ptr block cur
    → f.mem (block + cur) ≡ file_byte f a x
unfolding file_byte
byte_read f a x ptr block cur v = rw (v.start, v.offset_in, v.pointer)

-- How many bytes have been read when the loop ends.
abbrev read_end : ℕ → ℕ → ℕ → ℕ → ℕ
read_end offset len left done =
    if leb len (offset + done) then done else min (done + left) (len - offset)

read_loop_lem :
    (f : Image) (a offset len left ptr block cur done : ℕ) (buf : Memory)
    → offset + done + left < 2 ^ 32
    → IsAt f a (offset + done) ptr block cur
    → let r = read_loop f offset len left ptr block cur done buf in
      (r.0 ≡ read_end offset len left done)
      × ((j : ℕ)
          → r.1 j ≡ (
              if leb done j && ltb j (read_end offset len left done)
              then file_byte f a (offset + j)
              else buf j))
unfolding read_loop
read_loop_lem f a offset len zero ptr block cur done buf h v = (ground arith, λ j. ground arith)
read_loop_lem f a offset len (suc left) ptr block cur done buf h v =
    let turn = leb block_size (cur + 1) in
    let next = advance f a (offset + done) (offset + (done + 1)) ptr block cur (omega arith) v in
    let ih =
      read_loop_lem f a offset len left _ _ _ (done + 1) (update buf done (f.mem (block + cur)))
        (omega arith) next in
    let byte = byte_read f a (offset + done) ptr block cur v in
    (ground (arith, ih.0), λ j. ground (arith, ih.1 j, byte))

-- For an inode in range, a buffer, and an offset and length whose sum does not wrap: what is
-- copied is the file's bytes from the offset on, as many as the length asks for and the file has
-- left (none past its end), the rest of the buffer is as it was, and the result is their number.
pub read_data_lem :
    (f : Image) (inode offset length : ℕ) (buf : Memory)
    → inode < load32 f.mem (f.boot_block + 4)
    → offset + length < 2 ^ 32
    → let a = inode_start f inode in
      let n = min length (load32 f.mem a - offset) in
      (out : Memory) × (read_data f inode offset (some buf) length ≡ (to_i32 n, some out))
      × ((j : ℕ) → out j ≡ (if ltb j n then file_byte f a (offset + j) else buf j))
unfolding read_data
read_data_lem f inode offset length buf h k =
    let a = inode_start f inode in
    let ptr = a + 4 + offset / block_size * 4 in
    let block = block_start f (load32 f.mem ptr) in
    let r = read_loop f offset (load32 f.mem a) length ptr block (offset % block_size) 0 buf in
    let at : IsAt f a (offset + 0) ptr block (offset % block_size) = record {
      pointer = omega arith;
      start = refl;
      offset_in = omega arith;
    } in
    let w =
      read_loop_lem f a offset (load32 f.mem a) length ptr block (offset % block_size) 0 buf
        (omega arith) at in
    (r.1, ground (arith, w.0), λ j. ground (arith, w.1 j))
