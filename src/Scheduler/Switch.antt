-- ===== src/Scheduler/Switch.antt =====
-- `scheduler_yield` takes the ready list in turn.
use now_os.Base.{
  ℕ, ◌-◌, ◌^◌, ◌<◌, ◌≡◌, ◌≢◌, refl, true, false, arith, Returns, Returns-then, Returns-weaken, [],
  ◌∷◌, ◌++◌, ◌==◌, if◌then◌else◌,
}
use now_os.LinkedList.{NodePool}
use now_os.LinkedList.Chain.{Cells, IsList}
use now_os.Lock.{lock_busy, lock_free}
use now_os.Scheduler.{
  ready, running, is_running, CpuState, Scheduler, set_thread, set_processor,
  pull_next_runnable_thread, scheduler_push_ready_thread, scheduler_leave_and_queue,
  scheduler_leave, thread_switch_sync, scheduler_yield,
}
use now_os.Scheduler.Queue.{pull-Pulled, pull-empty, push-Pushed}
use now_os.Scheduler.Swap.{Scheduled, swap-Scheduled, stays-Scheduled, Switched}

-- The registers that `scheduler_yield` keeps for the thread, over those that were kept before.
unfoldable pub yielded : (regs before : CpuState) → CpuState
yielded regs before = record before {
  cr0 = regs.cr0;
  cr2 = regs.cr2;
  cr3 = regs.cr3;
  eflags = regs.eflags;
  eip = regs.eip;
  esp = regs.esp;
  ebp = regs.ebp;
}

module _ {P : NodePool} where
  -- `from` is queued, and the scheduler is left.
  record Queued (cpu from : ℕ) (saved : CpuState) (s : Scheduler P) (xs : Cells) (s' : Scheduler P)
      : Type 0 where
    state : (t : ℕ) → (s'.threads t).state ≡ (if t == from then ready else (s.threads t).state)
    active :
        (t : ℕ) → (s'.threads t).is_active ≡ (if t == from then false else (s.threads t).is_active)
    context :
        (t : ℕ) → (s'.threads t).cpu_state ≡ (if t == from then saved else (s.threads t).cpu_state)
    current : (c : ℕ) → (s'.processors c).current_thread ≡ (s.processors c).current_thread
    outside :
        (c : ℕ)
        → (s'.processors c).in_scheduler
          ≡ (if c == cpu then false else (s.processors c).in_scheduler)
    node : ℕ
    listed : IsList s'.ready_list (xs ++ ((node, from) ∷ []))
    lock : s'.sched_lock ≡ lock_free

  leave-Queued :
      (cpu from : ℕ) (s : Scheduler P) (xs : Cells)
      → IsList s.ready_list xs
      → s.ready_list.size < 2 ^ 32 - 1
      → (P.get_next s.ready_list.node_pool).0 ≢ 0
      → (s.threads from).is_active ≡ true
      → is_running (s.threads from).state ≡ true
      → Returns
          (scheduler_leave_and_queue cpu from s)
          (Queued cpu from (s.threads from).cpu_state s xs)
  unfolding scheduler_leave_and_queue
  leave-Queued cpu from s xs l small room a r =
      let s' = set_processor cpu (record (s.processors cpu) { in_scheduler = false }) s in
      rw (a, r)
        (Returns-then (scheduler_push_ready_thread from s') _ _
          (push-Pushed s' from xs l small room)
          (λ s'' p. record {
            state = p.state;
            active = p.active;
            context = λ t. ground (arith, p.context t);
            current = λ c. rw (p.processors c) (ground arith);
            outside = λ c. rw (p.processors c) (ground arith);
            node = p.node;
            listed = p.listed;
            lock = refl;
          }))

  sync-Queued :
      (cpu from : ℕ) (regs : CpuState) (s : Scheduler P) (xs : Cells)
      → IsList s.ready_list xs
      → s.ready_list.size < 2 ^ 32 - 1
      → (P.get_next s.ready_list.node_pool).0 ≢ 0
      → (s.threads from).is_active ≡ true
      → is_running (s.threads from).state ≡ true
      → Returns (thread_switch_sync cpu from regs s) (
          Queued cpu from
            (record ((s.threads from).cpu_state) { esp = regs.esp; ebp = regs.ebp; eip = regs.eip })
            s
            xs)
  unfolding thread_switch_sync
  sync-Queued cpu from regs s xs l small room a r =
      let tib = s.threads from in
      let saved = record (tib.cpu_state) { esp = regs.esp; ebp = regs.ebp; eip = regs.eip } in
      let s0 = set_thread from (record tib { cpu_state = saved }) s in
      let same : (from == from) ≡ true = ground arith in
      Returns-then (scheduler_leave_and_queue cpu from s0) _ _
        (leave-Queued cpu from s0 xs l small room (rw same a) (rw same r))
        (λ s' q. record {
          state = λ t. ground (arith, q.state t);
          active = λ t. ground (arith, q.active t);
          context = λ t. ground (arith, q.context t);
          current = λ c. ground (arith, q.current c, q.current cpu);
          outside = λ c. ground (arith, q.outside c, q.outside cpu);
          node = q.node;
          listed = q.listed;
          lock = q.lock;
        })

  yield-switches :
      (n cpu : ℕ) (regs : CpuState) (s : Scheduler P) (a to : ℕ) (xs : Cells)
      → Scheduled n s ((a, to) ∷ xs)
      → cpu < n
      → Returns (scheduler_yield cpu regs s) (
          Switched n cpu
            (yielded regs (s.threads (s.processors cpu).current_thread).cpu_state)
            s
            ((a, to) ∷ xs))
  unfolding scheduler_yield yielded
  yield-switches n cpu regs s a to xs v small =
      let from = (s.processors cpu).current_thread in
      let entered = record (s.processors cpu) { in_scheduler = true; interrupts = false } in
      let s0 = set_thread from (record (s.threads from) { state = running }) s in
      let s1 = record (set_processor cpu entered s0) { sched_lock = lock_busy } in
      let head = v.waiting to (ground arith) in
      let runs = v.current cpu small in
      let ne : (to == from) ≡ false = ground (arith, head, runs) in
      let nz : (to == 0) ≡ false = ground (arith, head) in
      Returns-then (pull_next_runnable_thread s1) _ _
        (pull-Pulled s1 a to xs v.listed (omega (arith, v.few, v.listed.sized)) head.0
          (rw ne head.1) (rw ne head.2))
        (λ (r, s2) (e, p).
          let tib = s2.threads from in
          let saved = record (tib.cpu_state) {
            cr3 = regs.cr3;
            cr2 = regs.cr2;
            cr0 = regs.cr0;
            eflags = regs.eflags;
          } in
          let s3 = set_thread from (record tib { cpu_state = saved }) s2 in
          let s4 = set_processor cpu (record (s3.processors cpu) { current_thread = to }) s3 in
          let at : (from == to) ≡ false = ground (arith, ne) in
          let same : (from == from) ≡ true = ground arith in
          let sized : s2.ready_list.size < 2 ^ 32 - 1 = omega (arith, v.few, p.listed.sized) in
          rw (e, nz, ne)
            (Returns-weaken (thread_switch_sync cpu from regs s4) _ _
              (sync-Queued cpu from regs s4 xs p.listed sized p.room
                (rw (same, p.active from, at, same) runs.1)
                (rw (same, p.state from, at, same) refl))
              (λ s' q.
                let current : (c : ℕ)
                    → (s'.processors c).current_thread
                      ≡ (if c == cpu then to else (s.processors c).current_thread) =
                  λ c. ground (arith, q.current c, p.processors c) in
                let context : (t : ℕ)
                    → (s'.threads t).cpu_state ≡ (
                        if t == from
                        then yielded regs (s.threads from).cpu_state
                        else (s.threads t).cpu_state) =
                  λ t. ground (arith, q.context t, p.context t, p.context from) in
                (
                  q.node,
                  swap-Scheduled n s a to xs cpu (yielded regs (s.threads from).cpu_state) s' v
                      small
                      (record {
                        context = context;
                        state = λ t. ground (arith, q.state t, p.state t);
                        active = λ t. ground (arith, q.active t, p.active t);
                        current = current;
                        outside = λ c. ground (arith, q.outside c, p.processors c);
                        node = q.node;
                        listed = q.listed;
                        lock = q.lock;
                      }),
                  current,
                  context,
                ))))

  yield-stays :
      (n cpu : ℕ) (regs : CpuState) (s : Scheduler P)
      → Scheduled n s []
      → cpu < n
      → Returns (scheduler_yield cpu regs s) (
          Switched n cpu
            (yielded regs (s.threads (s.processors cpu).current_thread).cpu_state)
            s
            [])
  unfolding scheduler_yield scheduler_leave
  yield-stays n cpu regs s v small =
      let from = (s.processors cpu).current_thread in
      let entered = record (s.processors cpu) { in_scheduler = true; interrupts = false } in
      let s0 = set_thread from (record (s.threads from) { state = running }) s in
      let s1 = record (set_processor cpu entered s0) { sched_lock = lock_busy } in
      Returns-then (pull_next_runnable_thread s1) _ _
        (pull-empty s1 v.listed (omega (arith, v.listed.sized)))
        (λ (r, s2) (e, e').
          rw (e, e')
            (
              stays-Scheduled n s (scheduler_leave cpu s1) v refl (λ t h. ground (arith, h))
                  (λ t. ground arith) (λ c. ground arith) (λ c h. ground (arith, v.outside c h))
                  refl,
              λ c. ground arith,
              λ t. ground arith,
            ))

  -- On a scheduled system of `n` processors, `scheduler_yield` meets no failed assertion and returns. The
  -- system is scheduled again. If a thread is ready, the first of the ready list runs on the
  -- processor, and the one that ran there waits at the end; else every processor keeps its thread. The
  -- registers kept for the thread that yields are `regs`, except for the six that `yielded` leaves.
  pub yield-Switched :
      (n cpu : ℕ) (regs : CpuState) (s : Scheduler P) (xs : Cells)
      → Scheduled n s xs
      → cpu < n
      → Returns (scheduler_yield cpu regs s) (
          Switched n cpu
            (yielded regs (s.threads (s.processors cpu).current_thread).cpu_state)
            s
            xs)
  yield-Switched n cpu regs s [] v small = yield-stays n cpu regs s v small
  yield-Switched n cpu regs s ((a, to) ∷ xs) v small = yield-switches n cpu regs s a to xs v small
