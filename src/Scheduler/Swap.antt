-- ===== src/Scheduler/Swap.antt =====
-- A system between two calls of the scheduler, and what keeps it so.
use now_os.Base.{
  ℕ, ◌-◌, ◌^◌, ◌<◌, ◌≡◌, ◌≢◌, inl, inr, refl, true, false, ◌||◌, arith, [], ◌∷◌, ◌++◌, ◌==◌,
  if◌then◌else◌, Bool-cases, length, length-append,
}
use now_os.LinkedList.{NodePool}
use now_os.LinkedList.Chain.{Cells, IsList}
use now_os.Lock.{lock_free}
use now_os.Scheduler.{ready, running, is_ready, is_running, CpuState, Scheduler}
use now_os.Scheduler.Queue.{waits, Once}

waits-append : (t a d : ℕ) (xs : Cells) → waits t (xs ++ ((a, d) ∷ [])) ≡ (waits t xs || t == d)
waits-append t a d [] = ground arith
waits-append t a d ((c, e) ∷ xs) = ground (arith, waits-append t a d xs)

Once-append : (a d : ℕ) (xs : Cells) → Once xs → waits d xs ≡ false → Once (xs ++ ((a, d) ∷ []))
Once-append a d [] u h = (refl, tt)
Once-append a d ((c, e) ∷ xs) u h =
    (ground (arith, waits-append e a d xs, u.0), Once-append a d xs u.1 (ground arith))

module _ {P : NodePool} where
  -- Between two calls of the scheduler, on the processors below `n`: each runs an active thread of its
  -- own, and the threads of the ready list are ready, inactive and each there once.
  pub record Scheduled (n : ℕ) (s : Scheduler P) (xs : Cells) : Type 0 where
    pub listed : IsList s.ready_list xs
    pub few : length xs < 2 ^ 32 - 1
    pub once : Once xs
    pub waiting :
        (t : ℕ)
        → waits t xs ≡ true
        → (t ≢ 0) × (is_ready (s.threads t).state ≡ true) × ((s.threads t).is_active ≡ false)
    pub current :
        (c : ℕ)
        → c < n
        → (is_running (s.threads (s.processors c).current_thread).state ≡ true)
          × ((s.threads (s.processors c).current_thread).is_active ≡ true)
          × ((s.processors c).current_thread ≢ 0)
    pub apart :
        (c d : ℕ)
        → c < n
        → d < n
        → (s.processors c).current_thread ≡ (s.processors d).current_thread
        → c ≡ d
    pub outside : (c : ℕ) → c < n → (s.processors c).in_scheduler ≡ false
    pub unlocked : s.sched_lock ≡ lock_free

  -- What a switch changes: `from` waits at the end of the list, and `to` runs.
  pub record Swapped (cpu from to : ℕ) (saved : CpuState) (s : Scheduler P) (xs : Cells)
      (s' : Scheduler P) : Type 0 where
    pub state :
        (t : ℕ)
        → (s'.threads t).state
          ≡ (if t == from then ready else if t == to then running else (s.threads t).state)
    pub active :
        (t : ℕ)
        → (s'.threads t).is_active
          ≡ (if t == from then false else if t == to then true else (s.threads t).is_active)
    pub context :
        (t : ℕ) → (s'.threads t).cpu_state ≡ (if t == from then saved else (s.threads t).cpu_state)
    pub current :
        (c : ℕ)
        → (s'.processors c).current_thread
          ≡ (if c == cpu then to else (s.processors c).current_thread)
    pub outside :
        (c : ℕ)
        → (s'.processors c).in_scheduler
          ≡ (if c == cpu then false else (s.processors c).in_scheduler)
    pub node : ℕ
    pub listed : IsList s'.ready_list (xs ++ ((node, from) ∷ []))
    pub lock : s'.sched_lock ≡ lock_free

  -- A switch between a current thread and the first of the list keeps the system scheduled.
  pub swap-Scheduled :
      (n : ℕ) (s : Scheduler P) (a to : ℕ) (xs : Cells) (cpu : ℕ) (saved : CpuState)
      (s' : Scheduler P)
      → Scheduled n s ((a, to) ∷ xs)
      → cpu < n
      → (w : Swapped cpu (s.processors cpu).current_thread to saved s xs s')
      → Scheduled n s' (xs ++ ((w.node, (s.processors cpu).current_thread) ∷ []))
  swap-Scheduled n s a to xs cpu saved s' v small w =
      let from = (s.processors cpu).current_thread in
      let runs = v.current cpu small in
      let head = v.waiting to (ground arith) in
      let not_waiting : waits from ((a, to) ∷ xs) ≡ false = ground (arith, v.waiting from, runs) in
      let other : to ≢ from = λ e. ground (arith, e, head, runs) in
      record {
        listed = w.listed;
        few = omega (arith, length-append xs ((w.node, from) ∷ []), v.few);
        once = Once-append w.node from xs v.once.1 (ground (arith, not_waiting));
        waiting = λ t h. elim (Bool-cases (t == from)) [
          | inl e ↦
              (let at : t ≡ from = ground (arith, e) in
                rw (w.state t, w.active t, e) (rw at runs.2, refl, refl))
          | inr e ↦
              (let old : waits t xs ≡ true = ground (arith, waits-append t w.node from xs, h, e) in
                let not_to : (t == to) ≡ false = ground (arith, v.once.0, old) in
                rw (w.state t, w.active t, e, not_to) (v.waiting t (ground (arith, old))))
        ];
        current = λ c k. elim (Bool-cases (c == cpu)) [
          | inl e ↦
              (let n1 : (to == from) ≡ false = ground (arith, other) in
                let n2 : (to == to) ≡ true = ground arith in
                rw (w.current c, e, w.state to, w.active to, n1, n2) (refl, refl, head.0))
          | inr e ↦
              (let mine = (s.processors c).current_thread in
                let n1 : (mine == from) ≡ false = ground (arith, e, v.apart c cpu k small) in
                let n2 : (mine == to) ≡ false = ground (arith, head, v.current c k) in
                rw (w.current c, e, w.state mine, w.active mine, n1, n2) (v.current c k))
        ];
        apart = λ c d k k' e. ground (
          arith,
          e,
          w.current c,
          w.current d,
          v.apart c d k k',
          head,
          v.current c k,
          v.current d k',
        );
        outside = λ c k. ground (arith, w.outside c, v.outside c k);
        unlocked = w.lock;
      }

  -- A call that finds nobody ready: no more changes than that `from` is marked as running, as it was.
  pub stays-Scheduled :
      (n : ℕ) (s s' : Scheduler P)
      → Scheduled n s []
      → s'.ready_list ≡ s.ready_list
      → ((t : ℕ) → is_running (s.threads t).state ≡ true → is_running (s'.threads t).state ≡ true)
      → ((t : ℕ) → (s'.threads t).is_active ≡ (s.threads t).is_active)
      → ((c : ℕ) → (s'.processors c).current_thread ≡ (s.processors c).current_thread)
      → ((c : ℕ) → c < n → (s'.processors c).in_scheduler ≡ false)
      → s'.sched_lock ≡ lock_free
      → Scheduled n s' []
  stays-Scheduled n s s' v l r a cur out k = record {
    listed = rw l v.listed;
    few = omega arith;
    once = tt;
    waiting = λ t h. cc;
    current = λ c h.
        let runs = v.current c h in
        rw (cur c, a (s.processors c).current_thread)
          (r (s.processors c).current_thread runs.0, runs.1, runs.2);
    apart = λ c d h h' e. v.apart c d h h' (rw (cur c, cur d) at e);
    outside = out;
    unlocked = k;
  }

  -- What a switch on processor `cpu` makes of the ready list `xs`: its first thread runs on `cpu`, and
  -- the one that ran there waits at the end, with `saved` for its registers. With nobody ready, the
  -- threads stay, each with its registers.
  abbrev pub Switched :
      (n cpu : ℕ) → (saved : CpuState) → Scheduler P → Cells → Scheduler P → Type 0
  Switched n cpu saved s [] s' =
      Scheduled n s' []
      × ((c : ℕ) → (s'.processors c).current_thread ≡ (s.processors c).current_thread)
      × ((t : ℕ) → (s'.threads t).cpu_state ≡ (s.threads t).cpu_state)
  Switched n cpu saved s ((a, to) ∷ xs) s' =
      (node : ℕ) × Scheduled n s' (xs ++ ((node, (s.processors cpu).current_thread) ∷ []))
      × ((c : ℕ)
          → (s'.processors c).current_thread
            ≡ (if c == cpu then to else (s.processors c).current_thread))
      × ((t : ℕ)
          → (s'.threads t).cpu_state
            ≡ (if t == (s.processors cpu).current_thread then saved else (s.threads t).cpu_state))
