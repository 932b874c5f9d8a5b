-- ===== src/Process/Execute/Command.antt =====
-- What sys_execute takes from its command: the name, and the arguments behind the spaces.
use orca_os.Base.{
  if_cases, ℕ, zero, suc, ◌+◌, ◌-◌, ◌≤◌, ◌<◌, ◌≡◌, ◌≢◌, refl, ap, ◌∙◌, arith, true, ltb, leb, ◌==◌,
  ◌&&◌, ◌||◌, if◌then◌else◌, some, Memory, update, bytes_of,
}
use orca_os.Strings.{strncmp, strncmp_from}
use orca_os.Files.{is_zero}
use orca_os.Process.{Pcb}
use orca_os.Process.Execute.{name_end, skip_spaces, store_argument, copy_arguments, magic}

-- A name of `n` characters, a space or a zero, spaces up to index `i`, and `len` bytes of arguments,
-- then a zero.
pub record IsCommand (command : Memory) (n i len : ℕ) : Type 0 where
  pub named : (j : ℕ) → j < n → (command j ≢ 0x20) × (command j ≢ 0)
  pub short : n < 31
  pub behind : n < i
  pub separated : ((command n == 0x20) || (command n == 0)) ≡ true
  pub spaces : (j : ℕ) → n < j → j < i → command j ≡ 0x20
  pub no_space : command i ≢ 0x20
  pub bytes : (j : ℕ) → i ≤ j → j < i + len → command j ≢ 0
  pub ends : command (i + len) ≡ 0

pub name_end_lem :
    (command : Memory) (n j left : ℕ)
    → ((x : ℕ) → x < n → (command x ≢ 0x20) × (command x ≢ 0))
    → ((command n == 0x20) || (command n == 0)) ≡ true
    → j ≤ n
    → n < j + left
    → name_end command j left ≡ n
unfolding name_end
name_end_lem command n j zero named stop le fits = absurd (omega arith)
name_end_lem command n j (suc left) named stop le fits =
    if_cases (λ r. r ≡ n) ((command j == 0x20) || (command j == 0)) (λ e. ground (arith, named j))
      (λ e. name_end_lem command n (j + 1) left named stop (ground (arith, stop)) (omega arith))

pub skip_spaces_lem :
    (fuel : ℕ) (command : Memory) (j i : ℕ)
    → ((x : ℕ) → j ≤ x → x < i → command x ≡ 0x20)
    → command i ≢ 0x20
    → j ≤ i
    → i < j + fuel
    → skip_spaces fuel command j ≡ some i
unfolding skip_spaces
skip_spaces_lem zero command j i spaces stop le fits = absurd (omega arith)
skip_spaces_lem (suc fuel) command j i spaces stop le fits =
    if_cases (λ r. r ≡ some i) (command j == 0x20)
      (λ e.
        skip_spaces_lem fuel command (j + 1) i (λ x p. spaces x (omega arith)) stop
          (ground (arith, stop)) (omega arith))
      (λ e. ground (arith, spaces j))

-- `p'` is `p` but for its arguments.
pub record SameBut (p p' : Pcb) : Type 0 where
  pub process_num : p'.process_num ≡ p.process_num
  pub arg_position : p'.arg_position ≡ p.arg_position
  pub file_array : p'.file_array ≡ p.file_array

abbrev pub Copied : ℕ → Memory → ℕ → ℕ → ℕ → Pcb → Type 0
Copied fuel command i j len p =
    (p' : Pcb) × (copy_arguments fuel command i j p ≡ some p')
    × ((x : ℕ)
        → p'.arguments x
          ≡ (if leb j x && ltb x (j + len) then command (i + (x - j)) else p.arguments x))
    × SameBut p p'

stored :
    (j c : ℕ) (p : Pcb)
    → j < 128
    → store_argument j c p ≡ record p { arguments = update p.arguments j c }
unfolding store_argument
stored j c p h = ground arith

same : (j c : ℕ) (p p' : Pcb) → j < 128 → SameBut (store_argument j c p) p' → SameBut p p'
same j c p p' h w =
    let e = stored j c p h in
    record {
      process_num = w.process_num ∙ ap (λ (q : Pcb). q.process_num) e;
      arg_position = w.arg_position ∙ ap (λ (q : Pcb). q.arg_position) e;
      file_array = w.file_array ∙ ap (λ (q : Pcb). q.file_array) e;
    }

pub copy_arguments_lem :
    (fuel : ℕ) (command : Memory) (i j len : ℕ) (p : Pcb)
    → ((x : ℕ) → i ≤ x → x < i + len → command x ≢ 0)
    → command (i + len) ≡ 0
    → j + len ≤ 128
    → len < fuel
    → Copied fuel command i j len p
unfolding copy_arguments
copy_arguments_lem zero command i j len p bytes ends le fits = absurd (omega arith)
copy_arguments_lem (suc fuel) command i j zero p bytes ends le fits = (
  p,
  ground (arith, ends),
  λ x. ground arith,
  record { process_num = refl; arg_position = refl; file_array = refl },
)
copy_arguments_lem (suc fuel) command i j (suc len) p bytes ends le fits =
    let q = store_argument j (command i) p in
    let r =
      copy_arguments_lem fuel command (i + 1) (j + 1) len q
        (λ x l l'. bytes x (omega arith) (omega arith)) (ground (arith, ends)) (omega arith)
        (omega arith) in
    (
      r.0,
      ground (arith, r.1, bytes i (omega arith) (omega arith)),
      λ x. ground (arith, r.2 x, stored j (command i) p (omega arith)),
      same j (command i) p r.0 (omega arith) r.3,
    )

pub strncmp-magic :
    (buf : Memory)
    → buf 0 ≡ 0x7F
    → buf 1 ≡ 0x45
    → buf 2 ≡ 0x4C
    → buf 3 ≡ 0x46
    → is_zero (strncmp buf (bytes_of magic) 4) ≡ true
unfolding strncmp strncmp_from
strncmp-magic buf h0 h1 h2 h3 = ground (arith, h0, h1, h2, h3)
