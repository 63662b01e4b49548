-- ===== src/Pic/Clock.antt =====
-- The clock of arch/pit.c.
use now_os.Base.{ℕ, zero, suc, ◌*◌, ◌/◌, ◌^◌, ◌<◌, ◌≡◌, refl, arith}
use now_os.Pic.{Writes, Pit, pit_interrupt_handler, init_pit, pit_get_ms}

-- The counters after `n` interrupts of the timer.
pub after : (n : ℕ) → Pit → Pit
after zero p = p
after (suc n) p = pit_interrupt_handler (after n p)

after-counts :
    (w : Writes) (n : ℕ)
    → n * 1000 < 2 ^ 32
    → ((after n (init_pit w).0).ns_counter ≡ n * 1000)
      × ((after n (init_pit w).0).ticks ≡ n)
      × ((after n (init_pit w).0).ns_ticks ≡ 1000)
unfolding after init_pit pit_interrupt_handler
after-counts w zero h = (refl, refl, refl)
after-counts w (suc n) h =
    let (c, t, k) = after-counts w n (omega arith) in (omega (arith, c, k), omega (arith, t), k)

-- As long as the counter of nanoseconds does not wrap, `pit_get_ms` counts one for every thousand
-- interrupts of the timer, although `init_pit` sets the timer to a thousand interrupts a second.
pub get_ms-after :
    (w : Writes) (n : ℕ) → n * 1000 < 2 ^ 32 → pit_get_ms (after n (init_pit w).0) ≡ n / 1000
unfolding pit_get_ms
get_ms-after w n h = omega (arith, (after-counts w n h).0)
