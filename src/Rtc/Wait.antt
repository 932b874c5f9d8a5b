-- ===== src/Rtc/Wait.antt =====
-- The virtual rate of a terminal, and that a read of the clock ends.
use orca_os.Base.{
  ℕ, zero, suc, ◌+◌, ◌-◌, ◌/◌, ◌%◌, ◌≤◌, ◌<◌, ◌≡◌, ◌≢◌, inl, inr, refl, sym, subst, ap, arith,
  ==_iff, if_cases, ◌∙◌, if_true, pos, minus_one, Bool, true, false, ◌==◌, ◌||◌, ◌^◌, if◌then◌else◌,
  Bool-cases, Option, some, Memory, load32,
}
use orca_os.Pic.{Pic, send_eoi}
use orca_os.Rtc.{
  rtc_handler, Rtc, tick, rtc_wait, rtc_read, returns_zero, is_rate, rtc_set_virtualized_freq,
  rtc_write,
}

-- One of the powers of two from 2 to `2 ^ k`.
unfoldable pub is_power : ℕ → ℕ → Bool
is_power zero r = false
is_power (suc k) r = (r == 2 ^ suc k) || is_power k r

is_rate-is_power : (r : ℕ) → is_rate r ≡ is_power 9 r
unfolding is_power
is_rate-is_power r = ground arith

-- The number of clock interrupts that make one of a terminal's: a power of two from 2 to 512.
abbrev pub IsRate : ℕ → Type 0
IsRate r = is_power 9 r ≡ true

pub record IsRtc (s : Rtc) : Type 0 where
  pub in_range : s.counter < 1024
  pub rated : (t : ℕ) → t ≤ 2 → IsRate (s.rates t)

or_step :
    (P : ℕ → Type 0) (r k : ℕ) (rest : Bool)
    → P k
    → (rest ≡ true → P r)
    → (rest || (r == k)) ≡ true
    → P r
or_step P r k rest p q h = elim (Bool-cases (r == k)) [
  | inl e ↦ subst P (sym ((==_iff r k).0 e)) p
  | inr e ↦ q (ground arith)
]

rate_cases :
    (P : ℕ → Type 0)
    → P 512
    → P 256
    → P 128
    → P 64
    → P 32
    → P 16
    → P 8
    → P 4
    → P 2
    → (r : ℕ) → is_rate r ≡ true
    → P r
rate_cases P a b c d e f g h i r = or_step P r 2 _ i (
    or_step P r 4 _ h (
      or_step P r 8 _ g (
        or_step P r 16 _ f (
          or_step P r 32 _ e (
            or_step P r 64 _ d (
              or_step P r 128 _ c
                (or_step P r 256 _ b (λ v. subst P (sym ((==_iff r 512).0 v)) a))))))))

-- What a rate makes of 1024 is a rate.
inverse-IsRate : (r : ℕ) → IsRate r → IsRate (1024 / r)
unfolding is_power
inverse-IsRate r v =
    rate_cases (λ r. is_power 9 (1024 / r) ≡ true) refl refl refl refl refl refl refl refl refl r
      (is_rate-is_power r ∙ v)

-- In a valid clock `rtc_write` leaves a valid clock; it returns 0 for the powers of two from 2 to
-- 512, and then the rate of terminal `t`, and no other, is 1024 divided by the frequency; for any
-- other number it returns -1, and no rate changes.
pub rtc_write_lem :
    (t : ℕ) (buf : Memory) (s : Rtc)
    → IsRtc s
    → let r = rtc_write t (some buf) s in
      let freq = load32 buf 0 in
      IsRtc r.0
      × ((u : ℕ)
          → r.0.rates u
            ≡ (if is_power 9 freq then (if t == u then 1024 / freq else s.rates u) else s.rates u))
      × (r.1 ≡ (if is_power 9 freq then pos 0 else minus_one))
unfolding rtc_write rtc_set_virtualized_freq
rtc_write_lem t buf s v =
    let freq = load32 buf 0 in
    let same = is_rate-is_power freq in
    elim (Bool-cases (is_power 9 freq)) [
      | inl e ↦
          rw (same ∙ e, e)
            (
              record {
                in_range = v.in_range;
                rated =
                    λ u h. if_cases IsRate (t == u) (λ x. inverse-IsRate freq e) (λ x. v.rated u h);
              },
              λ u. refl,
              refl,
            )
      | inr e ↦ rw (same ∙ e, e) (v, λ u. refl, refl)
    ]

mod_step : (n r : ℕ) → IsRate r → (n + 1) % 1024 % r ≡ (n % r + 1) % r
mod_step n r v =
    rate_cases (λ r. (n + 1) % 1024 % r ≡ (n % r + 1) % r) (omega arith) (omega arith) (omega arith)
      (omega arith) (omega arith) (omega arith) (omega arith) (omega arith) (omega arith) r
      (is_rate-is_power r ∙ v)

rate-pos : (r : ℕ) → IsRate r → 1 < r
rate-pos r v = ground (arith, is_rate-is_power r ∙ v)

-- How many clock interrupts are left until the counter is at a multiple of the rate.
left_until : ℕ → ℕ → ℕ
left_until n r = r - n % r

left_step :
    (n r : ℕ)
    → IsRate r
    → (n + 1) % 1024 % r ≢ 0
    → suc (left_until ((n + 1) % 1024) r) ≡ left_until n r
unfolding left_until
left_step n r v h = grind (arith, mod_step n r v, is_rate-is_power r ∙ v)

tick-rates : (t : ℕ) (s : Rtc) → (tick t s).rates ≡ s.rates
unfolding tick
tick-rates t s = refl

tick-counter : (t : ℕ) (s : Rtc) → (tick t s).counter ≡ (s.counter + 1) % 1024
unfolding tick
tick-counter t s = refl

tick-flag :
    (t : ℕ) (s : Rtc)
    → (tick t s).interrupt_flag
      ≡ (if (s.counter + 1) % 1024 % s.rates t == 0 then true else s.interrupt_flag)
unfolding tick
tick-flag t s = refl

rtc_wait_flagged :
    (t ticks : ℕ) (s : Rtc) (pic : Pic)
    → s.interrupt_flag ≡ true
    → rtc_wait t ticks s pic ≡ some (s, pic)
unfolding rtc_wait
rtc_wait_flagged t zero s pic h = if_true s.interrupt_flag _ _ h
rtc_wait_flagged t (suc ticks) s pic h = if_true s.interrupt_flag _ _ h

left_until-pos : (n r : ℕ) → IsRate r → left_until n r ≢ 0
unfolding left_until
left_until-pos n r v = grind (arith, rate-pos r v)

-- What a wait that ends leaves: the flag set.
record Ends (w : Option (Rtc × Pic)) : Type 0 where
  last : Rtc
  masks : Pic
  returns : w ≡ some (last, masks)
  flagged : last.interrupt_flag ≡ true

rtc_wait-Ends :
    (t ticks : ℕ) (s : Rtc) (pic : Pic)
    → IsRate (s.rates t)
    → left_until s.counter (s.rates t) ≤ ticks
    → Ends (rtc_wait t ticks s pic)
unfolding rtc_wait rtc_handler
rtc_wait-Ends t zero s pic v h = absurd (left_until-pos s.counter (s.rates t) v (omega arith))
rtc_wait-Ends t (suc ticks) s pic v h =
    if_cases Ends s.interrupt_flag
      (λ e. record { last = s; masks = pic; returns = refl; flagged = e })
      (λ e. elim (Bool-cases ((s.counter + 1) % 1024 % s.rates t == 0)) [
        | inl z ↦
            let on = tick-flag t s ∙ if_true _ true s.interrupt_flag z in
            record {
              last = tick t s;
              masks = send_eoi 8 pic;
              returns = rtc_wait_flagged t ticks (tick t s) (send_eoi 8 pic) on;
              flagged = on;
            }
        | inr z ↦
            let fewer = left_step s.counter (s.rates t) v (ground arith) in
            rtc_wait-Ends t ticks (tick t s) (send_eoi 8 pic) (rw (tick-rates t s) v)
              (rw (tick-rates t s, tick-counter t s) (omega (arith, fewer)))
      ])

-- In a valid clock a read by one of the three terminals returns 0, and does so after at most as
-- many clock interrupts as make one of the terminal's: 1024 divided by its frequency.
pub rtc_read_returns :
    (t ticks : ℕ) (s : Rtc) (pic : Pic)
    → IsRtc s
    → t ≤ 2
    → s.rates t ≤ ticks
    → (s' : Rtc) × (pic' : Pic) × (rtc_read t ticks s pic ≡ some (s', pic', pos 0))
      × (s'.interrupt_flag ≡ true)
unfolding rtc_read left_until
rtc_read_returns t ticks s pic v h k =
    let w =
      rtc_wait-Ends t ticks (record s { interrupt_flag = false }) pic (v.rated t h) (omega arith) in
    (w.last, w.masks, ap returns_zero w.returns, w.flagged)
