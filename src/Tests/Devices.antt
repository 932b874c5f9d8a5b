-- ===== src/Tests/Devices.antt =====
-- Examples on the clock and the interrupt controllers, and on the screen's memory.
use orca_os.Base.{
  ℕ, ◌≡◌, refl, arith, true, false, ◌==◌, if◌then◌else◌, pos, [], ◌∷◌, some, bytes_of, load32,
}
use orca_os.Pic
use orca_os.Pic.{Pic, enable_irq, disable_irq, send_eoi}
use orca_os.Pic.Masks.{masked}
use orca_os.Pic.Lines.{expected, in_range, masked-run}
use orca_os.Pic.Sync.{Command, IsSynced, init-IsSynced, run, run-IsSynced}
use orca_os.Rtc.{Rtc, rtc_read, rtc_write}
use orca_os.Rtc.Wait.{is_power, IsRtc, rtc_write_lem, rtc_read_returns}
use orca_os.Tests.{some_pic, some_clock}

masked-run_example :
    masked (run (Command.disable 1 ∷ Command.enable 1 ∷ Command.eoi 1 ∷ []) (Pic.init some_pic)) 1
    ≡ false
unfolding expected in_range
masked-run_example =
    masked-run (Command.disable 1 ∷ Command.enable 1 ∷ Command.eoi 1 ∷ []) (Pic.init some_pic) 1
      (init-IsSynced some_pic) refl (omega arith)

run_example : IsSynced (run (Command.enable 1 ∷ Command.eoi 1 ∷ []) (Pic.init some_pic))
run_example = run-IsSynced (Command.enable 1 ∷ Command.eoi 1 ∷ []) (init-IsSynced some_pic)

some_clock-IsRtc : IsRtc some_clock
unfolding is_power
some_clock-IsRtc = record { in_range = omega arith; rated = λ t h. refl }

rtc_read_example :
    (s' : Rtc) × (pic' : Pic) × (rtc_read 0 512 some_clock some_pic ≡ some (s', pic', pos 0))
    × (s'.interrupt_flag ≡ true)
rtc_read_example =
    rtc_read_returns 0 512 some_clock some_pic some_clock-IsRtc (omega arith) (omega arith)

rtc_write_example :
    let r = rtc_write 1 (some (bytes_of (4 ∷ []))) some_clock in
    IsRtc r.0 × ((u : ℕ) → r.0.rates u ≡ (if 1 == u then 256 else 512)) × (r.1 ≡ pos 0)
unfolding load32 is_power
rtc_write_example = rtc_write_lem 1 (bytes_of (4 ∷ [])) some_clock some_clock-IsRtc
