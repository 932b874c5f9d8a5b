-- ===== src/Tests/Kernels.antt =====
-- Examples on the interrupt descriptor table, paging, the scheduler and printing.
use orca_os.Base.{
  if◌then◌else◌, ◌==◌, Memory, true, pos, load32, ℕ, ◌≡◌, refl, arith, List, [], ◌∷◌, length, some,
}
use orca_os.Idt.{Gate, Linkage}
use orca_os.Multiboot.{bootloader_magic, info_at}
use orca_os.Segments.{ldt_segment, tss_segment}
use orca_os.Boot.{Machine, Symbols, idles, entry}
use orca_os.Multiboot.Maps.{Walk, ends, next}
use orca_os.Boot.Start.{Started, entry_lem}
use orca_os.Strings.{itoa}
use orca_os.Strings.Numbers.{value_from, value_from-itoa}
use orca_os.Printf.{puts, printf}
use orca_os.Printf.Formats.{Item, char, signed, hex_padded, format_of, output, printf-format_of}
use orca_os.Paging.{page_init, map_program}
use orca_os.Process.{Kernel}
use orca_os.Process.Execute.{sys_vidmap}
use orca_os.Process.Execute.Vidmap.{sys_vidmap_lem}
use orca_os.Paging.Entries.{IsBlank, IsLinked, whole}
use orca_os.Paging.Translate.{may_write, translate, physical, translate-whole}
use orca_os.Tests.{some_image, some_screen, some_kernel, some_pages}

abbrev zero_gate : Gate
zero_gate = record {
  offset_15_00 = 0;
  seg_selector = 0;
  reserved4 = 0;
  reserved3 = 0;
  reserved2 = 0;
  reserved1 = 0;
  size = 0;
  reserved0 = 0;
  dpl = 0;
  present = 0;
  offset_31_16 = 0;
}

abbrev some_address : Linkage → ℕ
some_address l = 0x400000

abbrev pub some_machine : Machine
some_machine = record {
  kernel = some_kernel;
  idt = λ i. zero_gate;
  ldt_desc = ldt_segment 0 0;
  tss_desc = tss_segment 0 0;
  ldt_segment_selector = 0;
  ss0 = 0;
  ldt_register = 0;
  task_register = 0;
}

abbrev pub some_symbols : Symbols
some_symbols = record {
  address = some_address;
  ldt = 0x405000;
  ldt_size = 31;
  tss = 0x405100;
  tss_size = 103;
}

some_pages-IsBlank : IsBlank some_pages
some_pages-IsBlank = record {
  absent = λ i. refl;
  small_pages = λ i. refl;
  no_lower = λ i. refl;
  no_upper = λ i. refl;
  no_page = λ i. refl;
}

some_pages-IsLinked : IsLinked some_pages
some_pages-IsLinked = record {
  first_fits = omega arith;
  first_aligned = omega arith;
  vid_fits = omega arith;
  vid_aligned = omega arith;
  apart = λ e. absurd (omega arith);
}

translate_example : translate (whole 3 some_pages) 0x8048000 ≡ some 0x1448000
unfolding physical
translate_example =
    translate-whole some_pages some_pages-IsBlank some_pages-IsLinked 3 0x8048000 (omega arith)
      (omega arith)

-- A map of one entry of 24 bytes at 0x5000.
abbrev map_mem : Memory
map_mem a =
    if a == 0x4000
    then 0x40
    else if a == 0x402C
    then 24
    else if a == 0x4031
    then 0x50
    else if a == 0x5000
    then 20
    else 0

abbrev mapped_machine : Machine
mapped_machine = record some_machine {
  kernel = record some_kernel { image = record some_image { mem = map_mem } };
}

map_mem-Walk : Walk map_mem 0x5018 0x5000
unfolding load32
map_mem-Walk = next 0x5000 (omega arith) (omega arith) (ends 0x5018 (omega arith))

entry_example :
    (m' : Machine) × (entry (λ a. []) some_symbols 25 0x26 0 bootloader_magic 0x4000 mapped_machine
      ≡ some (idles m'))
    × Started some_symbols mapped_machine m' 0x80
unfolding info_at load32
entry_example =
    entry_lem some_symbols (λ l. omega arith) (omega arith) (omega arith) (omega arith)
      (omega arith) (λ a. []) 25 0x26 0 0x4000 mapped_machine 0x80 refl (omega arith) map_mem-Walk
      (omega arith) refl refl

itoa_example : value_from 16 0 (itoa 0xBEEF 16) ≡ 0xBEEF
itoa_example = value_from-itoa 16 (omega arith) (omega arith) 0xBEEF (omega arith)

abbrev items : List Item
items = char 120 (λ e. absurd (omega arith)) ∷ signed ∷ hex_padded ∷ []

printf_example :
    printf (λ a. []) (λ k. 7) (format_of items) some_screen
    ≡ some (puts (output (λ a. []) (λ k. 7) items 0) some_screen, length (format_of items))
printf_example = printf-format_of (λ a. []) (λ k. 7) items some_screen (λ k. omega arith)

abbrev running : Kernel
running = record some_kernel { pages = map_program 3 (page_init some_pages) }

sys_vidmap_example :
    let (k', r) = sys_vidmap 0x8000010 running in
    (r ≡ pos 0x8400000)
    × (load32 (k'.frames 5) 0x10 ≡ 0x8400000)
    × (translate k'.pages 0x8400005 ≡ some 0xB8005)
    × (may_write k'.pages 0x8400005 ≡ true)
    × (k'.console ≡ some_kernel.console)
sys_vidmap_example =
    sys_vidmap_lem some_pages 3 running 0x8000010 5 some_pages-IsBlank some_pages-IsLinked
      (omega arith) refl (omega arith) (omega arith) (omega arith)
