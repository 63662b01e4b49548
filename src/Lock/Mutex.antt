-- ===== src/Lock/Mutex.antt =====
-- One holder at most, and a free lock can be taken.
use mathlib.Core.Path.{subst, sym, ◌∙◌}
use now_os.Base.{
  ℕ, ◌≡◌, ◌≢◌, ◌⊎◌, inl, inr, refl, true, false, none, some, arith, ◌==◌, if◌then◌else◌,
}
use now_os.Lock.{
  System, Phase, idle, exchanging, spinning, holding, refused, lock_busy, lock_free, init_spinlock,
  moved, spin_lock, turns, spin_trylock, spin_unlock, Step, calls_lock, goes_on, calls_trylock,
  gives_up, calls_unlock, Reachable, start, next,
}

-- The lock is free and no thread holds it, or it is busy and one thread holds it.
pub data Owned (s : System) : Type 0 where
  free : s.lock ≡ lock_free → ((t : ℕ) → s.phase t ≢ holding) → Owned s
  held :
      (owner : ℕ)
      → s.lock ≡ lock_busy
      → s.phase owner ≡ holding
      → ((t : ℕ) → s.phase t ≡ holding → t ≡ owner)
      → Owned s

-- A thread that does not hold the lock and comes to no hold leaves the owner.
stays :
    (s : System) (thread : ℕ) (p : Phase)
    → s.phase thread ≢ holding
    → p ≢ holding
    → Owned s
    → Owned (moved thread p s.lock s)
stays s thread p out away (free e none_holds) = free e (λ t. ground (arith, none_holds t))
stays s thread p out away (held owner e o unique) =
    held owner e (ground (arith, unique thread)) (λ t h. ground (arith, unique t))

takes :
    (s : System) (thread : ℕ)
    → s.lock ≡ lock_free
    → Owned s
    → Owned (moved thread holding lock_busy s)
takes s thread e (free e' none_holds) =
    held thread refl (ground arith) (λ t h. ground (arith, none_holds t))
takes s thread e (held owner e' o unique) = absurd (omega arith)

gives :
    (s : System) (thread : ℕ)
    → s.phase thread ≡ holding
    → Owned s
    → Owned (moved thread idle lock_free s)
gives s thread h (free e none_holds) = absurd (none_holds thread h)
gives s thread h (held owner e o unique) = free refl (λ t. ground (arith, unique t, unique thread))

-- The exchange of `spin_lock` and `spin_trylock`: `p` is where a thread goes that finds it taken.
exchanges :
    (s : System) (thread : ℕ) (p : Phase)
    → s.phase thread ≢ holding
    → p ≢ holding
    → Owned s
    → Owned (moved thread (if s.lock == lock_free then holding else p) lock_busy s)
exchanges s thread p out away (free e none_holds) =
    let t : (s.lock == lock_free) ≡ true = ground arith in
    rw t (takes s thread e (free e none_holds))
exchanges s thread p out away (held owner e o unique) =
    let t : (s.lock == lock_free) ≡ false = ground arith in
    rw (t, sym e) (stays s thread p out away (held owner e o unique))

some_inj : {A : Type 0} {a b : A} → some a ≡ some b → a ≡ b
some_inj e = cc

goes_on-Owned :
    (s s' : System) (thread : ℕ) (p : Phase)
    → s.phase thread ≡ p
    → spin_lock thread s ≡ some s'
    → Owned s
    → Owned s'
unfolding spin_lock
goes_on-Owned s s' thread idle h e v = (let k : none ≡ some s' = rw (h, spin_lock) at e in cc)
goes_on-Owned s s' thread exchanging h e v =
    subst Owned (some_inj (rw (h, spin_lock) at e))
      (exchanges s thread spinning (λ k. cc) (λ k. cc) v)
goes_on-Owned s s' thread spinning h e v = subst Owned (some_inj (rw (h, spin_lock) at e)) (
    stays s thread (if s.lock == lock_busy then spinning else exchanging) (λ k. cc)
      (λ k. ground arith) v)
goes_on-Owned s s' thread holding h e v = (let k : none ≡ some s' = rw (h, spin_lock) at e in cc)
goes_on-Owned s s' thread refused h e v = (let k : none ≡ some s' = rw (h, spin_lock) at e in cc)

step-Owned : (s s' : System) → Step s s' → Owned s → Owned s'
unfolding spin_trylock spin_unlock
step-Owned s s' (calls_lock t i) v = stays s t exchanging (λ k. cc) (λ k. cc) v
step-Owned s s' (goes_on t s'' e) v = goes_on-Owned s s'' t (s.phase t) refl e v
step-Owned s s' (calls_trylock t i) v = exchanges s t refused (λ k. cc) (λ k. cc) v
step-Owned s s' (gives_up t i) v = stays s t idle (λ k. cc) (λ k. cc) v
step-Owned s s' (calls_unlock t h) v = gives s t h v

-- In every system that is reachable from an initialised lock, it is free and no thread holds it, or
-- it is busy and exactly one thread holds it.
pub reachable-Owned : (s : System) → Reachable s → Owned s
unfolding init_spinlock
reachable-Owned s start = free refl (λ t k. cc)
reachable-Owned s (next s0 s1 r step) = step-Owned s0 s1 step (reachable-Owned s0 r)

-- Two threads that hold the lock at a reachable moment are the same thread.
pub mutual_exclusion :
    (s : System) (t u : ℕ) → Reachable s → s.phase t ≡ holding → s.phase u ≡ holding → t ≡ u
mutual_exclusion s t u r h k = elim (reachable-Owned s r) [
  | free e none_holds ↦ absurd (none_holds t h)
  | held owner e o unique ↦ unique t h ∙ sym (unique u k)
]

taken_turn :
    (s : System) (t : ℕ)
    → s.lock ≡ lock_free
    → s.phase t ≡ exchanging
    → spin_lock t s ≡ some (moved t holding lock_busy s)
unfolding spin_lock
taken_turn s t e h = rw (spin_lock, h, e) refl

no_turn : (s : System) (t word : ℕ) → spin_lock t (moved t holding word s) ≡ none
unfolding spin_lock
no_turn s t word = let r : (t == t) ≡ true = ground arith in rw (spin_lock, r) refl

spinning_turn :
    (s : System) (t : ℕ)
    → s.lock ≡ lock_free
    → s.phase t ≡ spinning
    → spin_lock t s ≡ some (moved t exchanging s.lock s)
unfolding spin_lock
spinning_turn s t e h = rw (spin_lock, h, e) refl

free_lock-turns :
    (s : System) (t : ℕ)
    → s.lock ≡ lock_free
    → (s.phase t ≡ exchanging) ⊎ (s.phase t ≡ spinning)
    → (turns 2 t s).phase t ≡ holding
unfolding turns
free_lock-turns s t e (inl h) =
    rw (turns, taken_turn s t e h, turns, no_turn s t lock_busy) (ground arith)
free_lock-turns s t e (inr h) =
    rw
      (
        turns,
        spinning_turn s t e h,
        turns,
        taken_turn (moved t exchanging s.lock s) t e (ground arith),
      )
      (ground arith)

-- At a reachable moment when no thread holds the lock, a thread inside `spin_lock` holds it after two
-- steps of its own: the lock cannot stay busy without a holder.
pub waiting-gets :
    (s : System) (t : ℕ)
    → Reachable s
    → (s.phase t ≡ exchanging) ⊎ (s.phase t ≡ spinning)
    → ((u : ℕ) → s.phase u ≢ holding)
    → (turns 2 t s).phase t ≡ holding
waiting-gets s t r w nobody = elim (reachable-Owned s r) [
  | free e none_holds ↦ free_lock-turns s t e w
  | held owner e o unique ↦ absurd (nobody owner o)
]
