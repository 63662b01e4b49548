-- ===== src/Pic/Tests.antt =====
-- arch/pic.c with a device that gives what was written last, and arch/pit.c.
use now_os.Base.{ℕ, ◌/◌, ◌≡◌, refl, [], ◌∷◌, arith, ◌==◌, if◌then◌else◌}
use now_os.Pic.{
  Writes, pic_set_mask, pic_clear_mask, pic_send_eoi, pic_disable, init_pit, pit_get_ms,
}
use now_os.Pic.Masks.{IsReady, masked, set_clear-masked}
use now_os.Pic.Clock.{after, get_ms-after}

last_written : Writes → ℕ → ℕ
last_written [] port = 0
last_written ((p, v) ∷ w) port = let rest = last_written w port in if port == p then v else rest

disabled : Writes
disabled = pic_disable []

disabled-IsReady : IsReady last_written disabled
unfolding last_written disabled pic_disable
disabled-IsReady = record {
  byte1 = omega arith;
  byte2 = omega arith;
  back1 = λ v h. refl;
  back2 = λ v h. refl;
  apart1 = λ v h. refl;
  apart2 = λ v h. refl;
}

set_clear-masked_example :
    (masked last_written (pic_set_mask last_written 9 disabled) 3
      ≡ (if 9 == 3 then 1 else masked last_written disabled 3))
    × (masked last_written (pic_clear_mask last_written 9 disabled) 3
        ≡ (if 9 == 3 then 0 else masked last_written disabled 3))
set_clear-masked_example =
    set_clear-masked last_written disabled disabled-IsReady 9 3 (omega arith) (omega arith)

slave_first : pic_send_eoi 12 [] ≡ (0x20, 0x20) ∷ (0xA0, 0x20) ∷ []
unfolding pic_send_eoi
slave_first = refl

-- 1193 is 0x4A9.
pit_writes : (init_pit []).1 ≡ (0x40, 0x04) ∷ (0x40, 0xA9) ∷ (0x43, 0x36) ∷ []
unfolding init_pit
pit_writes = refl

get_ms-after_example : pit_get_ms (after 5000 (init_pit []).0) ≡ 5000 / 1000
get_ms-after_example = get_ms-after [] 5000 (omega arith)
