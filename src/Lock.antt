-- ===== src/Lock.antt =====
-- kernel/lock.c: a spin lock, as threads that take turns. One step of a thread is one access to the
-- lock's word. A thread gives back only a lock that it holds. Memory is sequentially consistent, so
-- `mem_barrier` and `cpu_pause` do nothing.
pub mod Mutex
mod Tests
use now_os.Base.{ℕ, zero, suc, ◌≡◌, Bool, Option, none, some, List, [], ◌∷◌, ◌==◌, if◌then◌else◌}

-- LOCK_BUSY and LOCK_FREE
abbrev pub lock_busy : ℕ
lock_busy = 1

abbrev pub lock_free : ℕ
lock_free = 0

-- `exchanging` and `spinning` are the two loops of `spin_lock`; `refused` is behind a `spin_trylock`
-- that found the lock taken.
pub data Phase : Type 0 where
  idle exchanging spinning holding refused : Phase

pub record System : Type 0 where
  pub lock : ℕ
  pub phase : ℕ → Phase

pub init_spinlock : System
init_spinlock = record { lock = lock_free; phase = λ t. idle }

abbrev pub moved : (thread : ℕ) → Phase → (lock : ℕ) → System → System
moved thread p lock s = record { lock = lock; phase = λ t. if t == thread then p else s.phase t }

-- What `atomic_exchange_32` leaves and gives.
abbrev pub atomic_exchange_32 : (val word : ℕ) → ℕ × ℕ
atomic_exchange_32 val word = (word, val)

-- The next access of a thread inside `spin_lock`, where `none` is a thread that is not inside.
pub spin_lock : (thread : ℕ) → System → Option System
spin_lock thread s =
    let (old, word) = atomic_exchange_32 lock_busy s.lock in
    elim (s.phase thread) [
      | idle ↦ none
      | exchanging ↦ some (moved thread (if old == lock_free then holding else spinning) word s)
      | spinning ↦
          some (moved thread (if s.lock == lock_busy then spinning else exchanging) s.lock s)
      | holding ↦ none
      | refused ↦ none
    ]

-- `n` steps of a thread inside `spin_lock`, fewer if it returns.
pub turns : (n thread : ℕ) → System → System
unfolding spin_lock
turns zero thread s = s
turns (suc n) thread s = elim (spin_lock thread s) [ none ↦ s | some s' ↦ turns n thread s' ]

-- `LOCK_FREE` is the answer that the lock was taken.
pub spin_trylock : (thread : ℕ) → System → System
spin_trylock thread s =
    let (old, word) = atomic_exchange_32 lock_busy s.lock in
    moved thread (if old == lock_free then holding else refused) word s

pub spin_unlock : (thread : ℕ) → System → System
spin_unlock thread s = moved thread idle lock_free s

-- The turns that the threads can take.
pub data Step (s : System) : System → Type 0 where
  calls_lock : (t : ℕ) → s.phase t ≡ idle → Step s (moved t exchanging s.lock s)
  goes_on : (t : ℕ) (s' : System) → spin_lock t s ≡ some s' → Step s s'
  calls_trylock : (t : ℕ) → s.phase t ≡ idle → Step s (spin_trylock t s)
  gives_up : (t : ℕ) → s.phase t ≡ refused → Step s (moved t idle s.lock s)
  calls_unlock : (t : ℕ) → s.phase t ≡ holding → Step s (spin_unlock t s)

pub data Reachable : System → Type 0 where
  start : Reachable init_spinlock
  next : (s s' : System) → Reachable s → Step s s' → Reachable s'
