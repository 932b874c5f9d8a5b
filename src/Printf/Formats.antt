-- ===== src/Printf/Formats.antt =====
-- `printf` against a description of what a format stands for.
use orca_os.Base.{
  Memory, for_range, update, ◌&&◌, ℕ, zero, suc, ◌+◌, ◌-◌, ◌^◌, ◌≤◌, ◌<◌, ◌≡◌, ◌≢◌, refl, sym, ap,
  ◌∙◌, arith, ltb, leb, if◌then◌else◌, List, [], ◌∷◌, ◌++◌, length, get_or, some, u8,
}
use orca_os.Strings.{strlen, itoa}
use orca_os.Strings.Numbers.{slice_list}
use orca_os.Strings.Lengths.{IsText, itoa-IsText, length-itoa}
use orca_os.Screen.{Screen, putc}
use orca_os.Printf.{
  puts, format_hex, format_signed, pad_hex, plain, State, convert, format_char, format_loop, ended,
  printf,
}

-- The parts of a format: a character that is no `%`, or a conversion.
pub data Item : Type 0 where
  char : (c : ℕ) → c ≢ 0x25 → Item
  percent hex hex_padded unsigned signed character string : Item

-- How a part is written.
unfoldable pub spell : Item → List ℕ
spell (char c n) = c ∷ []
spell percent = 0x25 ∷ 0x25 ∷ []
spell hex = 0x25 ∷ 0x78 ∷ []
spell hex_padded = 0x25 ∷ 0x23 ∷ 0x78 ∷ []
spell unsigned = 0x25 ∷ 0x75 ∷ []
spell signed = 0x25 ∷ 0x64 ∷ []
spell character = 0x25 ∷ 0x63 ∷ []
spell string = 0x25 ∷ 0x73 ∷ []

unfoldable pub format_of : List Item → List ℕ
format_of [] = []
format_of (x ∷ xs) = spell x ++ format_of xs

-- The number of words that a part takes.
unfoldable pub words_of : Item → ℕ
words_of (char c n) = 0
words_of percent = 0
words_of _ = 1

-- Zeros in front, up to eight digits.
unfoldable pub zeros : ℕ → List ℕ → List ℕ
zeros zero s = s
zeros (suc n) s = 48 ∷ zeros n s

get_or-zeros :
    (n : ℕ) (s : List ℕ) (j : ℕ)
    → get_or (zeros n s) j 0 ≡ (if ltb j n then 48 else get_or s (j - n) 0)
unfolding zeros
get_or-zeros zero s j =
    ground (arith, ap (λ i. get_or s i 0) (let e : j ≡ j - 0 = omega arith in e))
get_or-zeros (suc n) s zero = ground arith
get_or-zeros (suc n) s (suc j) = ground (
  arith,
  get_or-zeros n s j,
  ap (λ i. get_or s i 0) (let e : j - n ≡ suc j - suc n = omega arith in e),
)

length-zeros : (n : ℕ) (s : List ℕ) → length (zeros n s) ≡ n + length s
unfolding zeros
length-zeros zero s = omega arith
length-zeros (suc n) s = omega (arith, length-zeros n s)

fill_zeros :
    (n i : ℕ) (m : Memory) (j : ℕ)
    → for_range n i (λ i b. update b i 48) m j ≡ (if leb i j && ltb j (i + n) then 48 else m j)
unfolding for_range
fill_zeros zero i m j = ground arith
fill_zeros (suc n) i m j = ground (arith, fill_zeros n (i + 1) (update m i 48) j)

-- The padding of `%#x` gives eight characters.
pad_hex-zeros : (s : List ℕ) → IsText s → length s ≤ 8 → pad_hex s ≡ zeros (8 - length s) s
unfolding pad_hex
pad_hex-zeros s t h =
    let n = strlen s in
    slice_list (zeros (8 - length s) s)
      (for_range (8 - n) n (λ i b. update b i 48) (λ j. get_or s (j - 8) 0)) n 8
      (omega (arith, length-zeros (8 - length s) s))
      (λ j l. ground (
        arith,
        t,
        fill_zeros (8 - n) n (λ j. get_or s (j - 8) 0) (n + j),
        get_or-zeros (8 - length s) s j,
        ap (λ i. get_or s i 0) (let e : n + j - 8 ≡ j - (8 - length s) = omega (arith, t, h) in e),
      ))

module _ (text : ℕ → List ℕ) (words : ℕ → ℕ) where
  -- What a part prints, if its word is number `k`.
  unfoldable pub prints : Item → ℕ → List ℕ
  prints (char c n) k = c ∷ []
  prints percent k = 0x25 ∷ []
  prints hex k = itoa (words k) 16
  prints hex_padded k = zeros (8 - length (itoa (words k) 16)) (itoa (words k) 16)
  prints unsigned k = itoa (words k) 10
  prints signed k =
      if leb (2 ^ 31) (words k) then 45 ∷ itoa (2 ^ 32 - words k) 10 else itoa (words k) 10
  prints character k = u8 (words k) ∷ []
  prints string k = text (words k)

  unfoldable pub output : List Item → ℕ → List ℕ
  output [] k = []
  output (x ∷ xs) k = prints x k ++ output xs (k + words_of x)

  puts-append : (a b : List ℕ) (s : Screen) → puts (a ++ b) s ≡ puts b (puts a s)
  unfolding puts
  puts-append [] b s = refl
  puts-append (c ∷ a) b s = puts-append a b (putc c s)

  item_step :
      (x : Item) (rest : List ℕ) (k : ℕ) (s : Screen)
      → ((k : ℕ) → words k < 2 ^ 32)
      → format_loop text words (spell x ++ rest) (record { mode = plain; esp = k; screen = s })
        ≡ format_loop text words rest
            (record { mode = plain; esp = k + words_of x; screen = puts (prints x k) s })
  unfolding format_loop format_char convert spell prints words_of puts format_hex format_signed
  item_step (char c n) rest k s h = ground (
    arith,
    ap (λ i. format_loop text words rest (record { mode = plain; esp = i; screen = putc c s }))
        (let e : k ≡ k + 0 = omega arith in e),
  )
  item_step percent rest k s h =
      ap (λ i. format_loop text words rest (record { mode = plain; esp = i; screen = putc 0x25 s }))
        (let e : k ≡ k + 0 = omega arith in e)
  item_step hex rest k s h = refl
  item_step hex_padded rest k s h =
      ap
        (λ out.
          format_loop text words rest (record { mode = plain; esp = k + 1; screen = puts out s }))
        (pad_hex-zeros (itoa (words k) 16) (itoa-IsText 16 (words k) (omega arith) (omega arith))
          (length-itoa (words k) (h k)))
  item_step unsigned rest k s h = refl
  item_step signed rest k s h = refl
  item_step character rest k s h = refl
  item_step string rest k s h = refl

  loop_lem :
      (xs : List Item) (k : ℕ) (s : Screen)
      → ((k : ℕ) → words k < 2 ^ 32)
      → (e : ℕ) × (format_loop text words
            (format_of xs)
            (record { mode = plain; esp = k; screen = s })
          ≡ record { mode = plain; esp = e; screen = puts (output xs k) s })
  unfolding format_of output format_loop puts
  loop_lem [] k s h = (k, refl)
  loop_lem (x ∷ xs) k s h =
      let (e, w) = loop_lem xs (k + words_of x) (puts (prints x k) s) h in
      (
        e,
        item_step x (format_of xs) k s h
            ∙ w
            ∙ ap (λ t. record { mode = plain; esp = e; screen = t })
                (sym (puts-append (prints x k) (output xs (k + words_of x)) s)),
      )

  -- On 32-bit words `printf` prints what the parts of its format stand for, each with the next
  -- word: the same as `puts` of that text. It returns the length of the format.
  pub printf-format_of :
      (xs : List Item) (s : Screen)
      → ((k : ℕ) → words k < 2 ^ 32)
      → printf text words (format_of xs) s ≡ some (puts (output xs 0) s, length (format_of xs))
  unfolding printf
  printf-format_of xs s h =
      ap (λ (t : State). ended text words (length (format_of xs)) t.mode t.screen)
        (loop_lem xs 0 s h).1
