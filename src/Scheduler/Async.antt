-- ===== src/Scheduler/Async.antt =====
-- The timer's `scheduler_async_enter` takes the ready list in turn.
use now_os.Base.{
  ℕ, ◌-◌, ◌^◌, ◌<◌, ◌≡◌, refl, ap, false, arith, Returns, Returns-then, [], ◌∷◌, ◌==◌,
  if◌then◌else◌,
}
use now_os.LinkedList.{NodePool}
use now_os.LinkedList.Chain.{Cells}
use now_os.Lock.{lock_busy}
use now_os.Interrupt.{IntState}
use now_os.Scheduler.{
  Processor, Scheduler, set_processor, pull_next_runnable_thread, scheduler_push_ready_thread,
  scheduler_async_leave, scheduler_async_enter, save_register_state, interrupted,
}
use now_os.Scheduler.Queue.{pull-Pulled, pull-empty, push-Pushed}
use now_os.Scheduler.Swap.{Scheduled, swap-Scheduled, stays-Scheduled, Switched}

module _ {P : NodePool} where
  async-switches :
      (n cpu : ℕ) (state : IntState) (s : Scheduler P) (a to : ℕ) (xs : Cells)
      → Scheduled n s ((a, to) ∷ xs)
      → cpu < n
      → Returns
          (scheduler_async_enter cpu state s)
          (Switched n cpu (interrupted state) s ((a, to) ∷ xs))
  unfolding scheduler_async_enter scheduler_async_leave
  async-switches n cpu state s a to xs v small =
      let from = (s.processors cpu).current_thread in
      let s0 = record s { sched_lock = lock_busy } in
      let head = v.waiting to (ground arith) in
      let runs = v.current cpu small in
      let ne : (from == to) ≡ false = ground (arith, head, runs) in
      let nz : (to == 0) ≡ false = ground (arith, head) in
      let out : (s.processors cpu).in_scheduler ≡ false = v.outside cpu small in
      rw out (
        Returns-then (pull_next_runnable_thread s0) _ _
          (pull-Pulled s0 a to xs v.listed (omega (arith, v.few, v.listed.sized)) head.0 head.1
            head.2)
          (λ (r, s1) (e, p).
            let mine : (s1.processors cpu).current_thread ≡ from =
              ap Processor.current_thread (p.processors cpu) in
            let s2 = save_register_state from state s1 in
            let s3 = set_processor cpu (record (s2.processors cpu) { current_thread = to }) s2 in
            let sized : s1.ready_list.size < 2 ^ 32 - 1 = omega (arith, v.few, p.listed.sized) in
            rw (e, nz, mine, ne)
              (Returns-then (scheduler_push_ready_thread from s3) _ _
                (push-Pushed s3 from xs p.listed sized p.room)
                (λ s4 q.
                  let s' = scheduler_async_leave cpu s4 in
                  let current : (c : ℕ)
                      → (s'.processors c).current_thread
                        ≡ (if c == cpu then to else (s.processors c).current_thread) =
                    λ c. ground (arith, q.processors c, p.processors c, q.processors cpu) in
                  let context : (t : ℕ)
                      → (s'.threads t).cpu_state
                        ≡ (if t == from then interrupted state else (s.threads t).cpu_state) =
                    λ t. ground (arith, q.context t, p.context t) in
                  (
                    q.node,
                    swap-Scheduled n s a to xs cpu (interrupted state) s' v small (record {
                      context = context;
                      state = λ t. ground (arith, q.state t, p.state t);
                      active = λ t. ground (arith, q.active t, p.active t);
                      current = current;
                      outside =
                          λ c. ground (arith, q.processors c, p.processors c, q.processors cpu);
                      node = q.node;
                      listed = q.listed;
                      lock = refl;
                    }),
                    current,
                    context,
                  )))))

  async-stays :
      (n cpu : ℕ) (state : IntState) (s : Scheduler P)
      → Scheduled n s []
      → cpu < n
      → Returns (scheduler_async_enter cpu state s) (Switched n cpu (interrupted state) s [])
  unfolding scheduler_async_enter scheduler_async_leave
  async-stays n cpu state s v small =
      let s0 = record s { sched_lock = lock_busy } in
      let out : (s.processors cpu).in_scheduler ≡ false = v.outside cpu small in
      rw out (
        Returns-then (pull_next_runnable_thread s0) _ _
          (pull-empty s0 v.listed (omega (arith, v.listed.sized)))
          (λ (r, s2) (e, e').
            rw (e, e')
              (
                stays-Scheduled n s (scheduler_async_leave cpu s0) v refl (λ t h. h) (λ t. refl)
                    (λ c. ground arith) (λ c h. ground (arith, v.outside c h)) refl,
                λ c. ground arith,
                λ t. refl,
              )))

  -- On a scheduled system of `n` processors, the timer's `scheduler_async_enter` meets no failed assertion
  -- and returns, and it switches as `scheduler_yield` does; it keeps all registers of the interrupt.
  pub async_enter-Switched :
      (n cpu : ℕ) (state : IntState) (s : Scheduler P) (xs : Cells)
      → Scheduled n s xs
      → cpu < n
      → Returns (scheduler_async_enter cpu state s) (Switched n cpu (interrupted state) s xs)
  async_enter-Switched n cpu state s [] v small = async-stays n cpu state s v small
  async_enter-Switched n cpu state s ((a, to) ∷ xs) v small =
      async-switches n cpu state s a to xs v small
