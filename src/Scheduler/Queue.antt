-- ===== src/Scheduler/Queue.antt =====
-- The ready list as a queue of threads: what a pull and a push change.
use now_os.Base.{
  ℕ, ◌-◌, ◌^◌, ◌<◌, ◌≡◌, ◌≢◌, inl, inr, refl, Bool, true, false, ◌||◌, arith, Returns, Returns-then,
  [], ◌∷◌, ◌++◌, ◌==◌, if◌then◌else◌,
}
use now_os.LinkedList.{NodePool, linked_list_pop, linked_list_enqueue}
use now_os.LinkedList.Chain.{Cells, IsList}
use now_os.LinkedList.Queue.{enqueue-IsList, pop-Popped}
use now_os.Scheduler.{
  ready, running, is_ready, Scheduler, pull_next_runnable_thread, scheduler_push_ready_thread,
}

-- Whether a thread is in the ready list, and whether none is there twice.
abbrev pub waits : ℕ → Cells → Bool
waits t [] = false
waits t ((a, d) ∷ xs) = t == d || waits t xs

abbrev pub Once : Cells → Type 0
Once [] = Unit
Once ((a, d) ∷ xs) = (waits d xs ≡ false) × Once xs

module _ {P : NodePool} where
  -- A pull has taken `thread` off the list.
  pub record Pulled (thread : ℕ) (s : Scheduler P) (xs : Cells) (s' : Scheduler P) : Type 0 where
    pub state :
        (t : ℕ) → (s'.threads t).state ≡ (if t == thread then running else (s.threads t).state)
    pub active :
        (t : ℕ) → (s'.threads t).is_active ≡ (if t == thread then true else (s.threads t).is_active)
    pub context : (t : ℕ) → (s'.threads t).cpu_state ≡ (s.threads t).cpu_state
    pub processors : (c : ℕ) → s'.processors c ≡ s.processors c
    pub listed : IsList s'.ready_list xs
    pub room : (P.get_next s'.ready_list.node_pool).0 ≢ 0
    pub lock : s'.sched_lock ≡ s.sched_lock

  pub pull-Pulled :
      (s : Scheduler P) (a thread : ℕ) (xs : Cells)
      → IsList s.ready_list ((a, thread) ∷ xs)
      → s.ready_list.size < 2 ^ 32
      → thread ≢ 0
      → is_ready (s.threads thread).state ≡ true
      → (s.threads thread).is_active ≡ false
      → Returns (pull_next_runnable_thread s) (λ (r, s'). (r ≡ thread) × Pulled thread s xs s')
  unfolding pull_next_runnable_thread
  pull-Pulled s a thread xs l small nz r i =
      let t : (thread == 0) ≡ false = ground arith in
      Returns-then (linked_list_pop s.ready_list) _ _
        (pop-Popped s.ready_list ((a, thread) ∷ xs) l small (inl nz))
        (λ (d, list) (e, l', room).
          rw (e, t, r, i)
            (
              refl,
              record {
                state = λ u. ground arith;
                active = λ u. ground arith;
                context = λ u. ground arith;
                processors = λ c. refl;
                listed = l';
                room = room;
                lock = refl;
              },
            ))

  pub pull-empty :
      (s : Scheduler P)
      → IsList s.ready_list []
      → s.ready_list.size < 2 ^ 32
      → Returns (pull_next_runnable_thread s) (λ (r, s'). (r ≡ 0) × (s' ≡ s))
  unfolding pull_next_runnable_thread
  pull-empty s l small =
      Returns-then (linked_list_pop s.ready_list) _ _
        (pop-Popped s.ready_list [] l small (inr refl))
        (λ (d, list) (e, e'). rw (e, e') (refl, refl))

  -- A push has put `thread` at the end.
  pub record Pushed (thread : ℕ) (s : Scheduler P) (xs : Cells) (s' : Scheduler P) : Type 0 where
    pub state :
        (t : ℕ) → (s'.threads t).state ≡ (if t == thread then ready else (s.threads t).state)
    pub active :
        (t : ℕ)
        → (s'.threads t).is_active ≡ (if t == thread then false else (s.threads t).is_active)
    pub context : (t : ℕ) → (s'.threads t).cpu_state ≡ (s.threads t).cpu_state
    pub processors : (c : ℕ) → s'.processors c ≡ s.processors c
    pub node : ℕ
    pub listed : IsList s'.ready_list (xs ++ ((node, thread) ∷ []))
    pub lock : s'.sched_lock ≡ s.sched_lock

  pub push-Pushed :
      (s : Scheduler P) (thread : ℕ) (xs : Cells)
      → IsList s.ready_list xs
      → s.ready_list.size < 2 ^ 32 - 1
      → (P.get_next s.ready_list.node_pool).0 ≢ 0
      → Returns (scheduler_push_ready_thread thread s) (Pushed thread s xs)
  unfolding scheduler_push_ready_thread
  push-Pushed s thread xs l small room =
      Returns-then (linked_list_enqueue thread s.ready_list) _ _
        (enqueue-IsList thread s.ready_list xs l small room)
        (λ (index, list) (e, l'). record {
          state = λ u. ground arith;
          active = λ u. ground arith;
          context = λ u. ground arith;
          processors = λ c. refl;
          node = (P.get_next s.ready_list.node_pool).0;
          listed = l';
          lock = refl;
        })
