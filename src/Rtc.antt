-- ===== src/Rtc.antt =====
-- The real-time clock: student-distrib/rtc.c. Bytes that `inb` reads from the clock are arguments;
-- `ports` logs `outb`, the latest first. The entry in the interrupt descriptor table that
-- `rtc_init` sets is not modelled.
pub mod Wait
pub mod Frequency
use orca_os.Base.{
  ℕ, zero, suc, ◌+◌, ◌-◌, ◌/◌, ◌%◌, ℤ, pos, minus_one, bit_and, bit_or, Bool, true, false, not, ltb,
  ◌==◌, ◌&&◌, ◌||◌, if◌then◌else◌, List, ◌∷◌, Option, none, some, Memory, load32, update, u8, sub32,
}
use orca_os.Pic.{Pic, enable_irq, send_eoi}

-- `rates` is `frequency_division_rate`.
pub record Rtc : Type 0 where
  pub interrupt_flag : Bool
  pub counter : ℕ
  pub rates : ℕ → ℕ
  pub ports : List (ℕ × ℕ)

abbrev outb : ℕ → ℕ → Rtc → Rtc
outb v p s = record s { ports = (u8 v, p) ∷ s.ports }

-- `reg_a` and `reg_b` are read from the clock's registers A and B.
unfoldable pub rtc_init : ℕ → ℕ → Rtc × Pic → Rtc × Pic
rtc_init reg_a reg_b (s, pic) =
    let s1 = outb 0x8A 0x70 (outb 0x8A 0x70 s) in
    let s2 = outb (bit_or (bit_and reg_a 0xF0) 0x0F) 0x71 s1 in
    let s3 = outb 0x8B 0x70 (outb 0x8B 0x70 s2) in
    let s4 = outb (bit_or reg_b 0x40) 0x71 s3 in
    (
      record s4 {
        interrupt_flag = false;
        counter = 0;
        rates = update (update (update s4.rates 0 512) 1 512) 2 512;
      },
      enable_irq 8 pic,
    )

-- What `rtc_handler` does to the clock, with terminal `t` on display.
unfoldable pub tick : ℕ → Rtc → Rtc
tick t s =
    let s1 = outb 0x0C 0x70 (outb 0x0A 0x70 s) in
    let n = (s1.counter + 1) % 1024 in
    record s1 {
      counter = n;
      interrupt_flag = if n % s1.rates t == 0 then true else s1.interrupt_flag;
    }

-- The end of interrupt is sent before the counter moves; they share no state.
unfoldable pub rtc_handler : ℕ → Rtc × Pic → Rtc × Pic
rtc_handler t (s, pic) = (tick t s, send_eoi 8 pic)

-- `while (temp != 0) { temp >>= 1; i++; }`: 32 rounds are enough for a `uint32_t`.
unfoldable pub count_shifts : ℕ → ℕ → ℕ → ℕ
count_shifts zero temp i = i
count_shifts (suc fuel) temp i =
    let rest = count_shifts fuel (temp / 2) (i + 1) in if temp == 0 then i else rest

-- For a `freq` that is not negative.
unfoldable pub valid_freq : ℕ → Bool
valid_freq freq = not (freq == 0) && (bit_and freq (freq - 1) == 0) && not (ltb 1024 freq)

-- `0x0F - (i - 1)`
unfoldable pub rate_of : ℕ → ℕ
unfolding count_shifts
rate_of freq = sub32 0x10 (count_shifts 32 (freq / 2) 0)

unfoldable pub rtc_set_freq : ℕ → ℕ → Rtc → Rtc × ℤ
rtc_set_freq reg_a freq s =
    let s1 = outb 0x8A 0x70 s in
    if valid_freq freq
    then (outb (bit_or (bit_and reg_a 0xF0) (rate_of freq)) 0x71 (outb 0x8A 0x70 s1), pos 0)
    else (s1, minus_one)

-- The file name is not used. `reg_a'` is what register A reads as after `rtc_init`.
unfoldable pub rtc_open : ℕ → ℕ → ℕ → Rtc × Pic → (Rtc × Pic) × ℤ
rtc_open reg_a reg_b reg_a' sp =
    let (s, pic) = rtc_init reg_a reg_b sp in ((((rtc_set_freq reg_a' 1024 s).0, pic)), pos 0)

unfoldable pub rtc_close : ℕ → Rtc → Rtc × ℤ
rtc_close reg_a s = ((rtc_set_freq reg_a 1024 s).0, pos 0)

-- The loop of `rtc_read`, while the clock interrupts at most `ticks` times: `none` is a wait that
-- has not ended.
unfoldable pub rtc_wait : ℕ → ℕ → Rtc → Pic → Option (Rtc × Pic)
rtc_wait t zero s pic = if s.interrupt_flag then some (s, pic) else none
rtc_wait t (suc ticks) s pic =
    let rest = rtc_wait t ticks (rtc_handler t (s, pic)).0 (rtc_handler t (s, pic)).1 in
    if s.interrupt_flag then some (s, pic) else rest

abbrev pub returns_zero : Option (Rtc × Pic) → Option (Rtc × Pic × ℤ)
returns_zero none = none
returns_zero (some (s, pic)) = some (s, pic, pos 0)

unfoldable pub rtc_read : ℕ → ℕ → Rtc → Pic → Option (Rtc × Pic × ℤ)
rtc_read t ticks s pic = returns_zero (rtc_wait t ticks (record s { interrupt_flag = false }) pic)

abbrev pub is_rate : ℕ → Bool
is_rate freq =
    (freq == 512)
    || (freq == 256)
    || (freq == 128)
    || (freq == 64)
    || (freq == 32)
    || (freq == 16)
    || (freq == 8)
    || (freq == 4)
    || (freq == 2)

unfoldable pub rtc_set_virtualized_freq : ℕ → ℕ → Rtc → Rtc × ℤ
rtc_set_virtualized_freq t freq s =
    if is_rate freq
    then (record s { rates = update s.rates t (1024 / freq) }, pos 0)
    else (s, minus_one)

-- `none` is NULL.
unfoldable pub rtc_write : ℕ → Option Memory → Rtc → Rtc × ℤ
rtc_write t none s = (s, minus_one)
rtc_write t (some buf) s = rtc_set_virtualized_freq t (load32 buf 0) s
