-- ===== src/Lock/Tests.antt =====
-- Two threads on one lock: thread 7 takes it, and thread 9 finds it taken and spins.
use now_os.Base.{ℕ, ◌≡◌, refl, inl, arith}
use now_os.Lock.{
  System, exchanging, spinning, holding, lock_busy, lock_free, init_spinlock, moved, spin_lock,
  turns, calls_lock, goes_on, Reachable, start, next,
}
use now_os.Lock.Mutex.{Owned, reachable-Owned, mutual_exclusion, waiting-gets}

abbrev called : System
called = moved 7 exchanging lock_free init_spinlock

abbrev taken : System
taken = moved 7 holding lock_busy called

abbrev contended : System
contended = moved 9 exchanging lock_busy taken

abbrev spins : System
spins = moved 9 spinning lock_busy contended

called-Reachable : Reachable called
unfolding init_spinlock
called-Reachable = next init_spinlock called start (calls_lock 7 refl)

taken-Reachable : Reachable taken
unfolding init_spinlock spin_lock
taken-Reachable = next called taken called-Reachable (goes_on 7 taken refl)

contended-Reachable : Reachable contended
unfolding init_spinlock
contended-Reachable = next taken contended taken-Reachable (calls_lock 9 refl)

spins-Reachable : Reachable spins
unfolding init_spinlock spin_lock
spins-Reachable = next contended spins contended-Reachable (goes_on 9 spins refl)

reachable-Owned_example : Owned spins
reachable-Owned_example = reachable-Owned spins spins-Reachable

mutual_exclusion_example : ◌≡◌ {A = ℕ} 7 7
mutual_exclusion_example = mutual_exclusion spins 7 7 spins-Reachable refl refl

called_nobody : (u : ℕ) → called.phase u ≡ holding → ⊥
unfolding init_spinlock
called_nobody u h = ground arith

waiting-gets_example : (turns 2 7 called).phase 7 ≡ holding
waiting-gets_example = waiting-gets called 7 called-Reachable (inl refl) called_nobody
