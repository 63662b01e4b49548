-- ===== src/Scheduler.antt =====
-- kernel/scheduler.c: the ready list, leaving the scheduler, the two ways to switch threads, and the
-- C functions that arch/thread_switch.s calls. A thread is the address of its block, and a processor
-- its number. The ready list is the list of klib/linked_list.c over any pool of nodes. `spin_lock`
-- takes the lock here; a processor that finds it taken waits, so a step begins when it is free.
pub mod Queue
pub mod Swap
pub mod Switch
pub mod Async
pub mod Reach
pub mod Thread
mod Tests
use now_os.Base.{
  ℕ, zero, suc, ◌+◌, ◌≡◌, Bool, true, false, not, Run, ok, ◌>>=◌, ◌>>◌, assert, List, ◌==◌,
  if◌then◌else◌, ℤ,
}
use now_os.LinkedList.{NodePool, LinkedList, linked_list_enqueue, linked_list_pop}
use now_os.Lock.{lock_busy, lock_free}
use now_os.Interrupt.{IntState}

-- thread_state_t
pub data ThreadState : Type 0 where
  ready running sleeping paused idle : ThreadState

-- cpu_state_t
pub record CpuState : Type 0 where
  pub cr0 : ℕ
  pub cr2 : ℕ
  pub cr3 : ℕ
  pub eflags : ℕ
  pub eip : ℕ
  pub esp : ℕ
  pub ebp : ℕ
  pub edi : ℕ
  pub esi : ℕ
  pub edx : ℕ
  pub ecx : ℕ
  pub ebx : ℕ
  pub eax : ℕ

-- tib_t
pub record Tib : Type 0 where
  pub cpu_state : CpuState
  pub state : ThreadState
  pub tid : ℕ
  pub time_used : ℕ
  pub last_time : ℕ
  pub current_priority : ℕ
  pub starting_priority : ℕ
  pub is_active : Bool
  pub enter : ℕ
  pub name : List ℕ

-- processor_t, without the timer, and whether interrupts are enabled on the processor.
pub record Processor : Type 0 where
  pub current_thread : ℕ
  pub in_scheduler : Bool
  pub interrupts : Bool

abbrev pub is_ready : ThreadState → Bool
is_ready ready = true
is_ready running = false
is_ready sleeping = false
is_ready paused = false
is_ready idle = false

abbrev pub is_running : ThreadState → Bool
is_running ready = false
is_running running = true
is_running sleeping = false
is_running paused = false
is_running idle = false

pub record Scheduler (P : NodePool) : Type 0 where
  pub threads : ℕ → Tib
  pub ready_list : LinkedList P
  pub processors : ℕ → Processor
  pub sched_lock : ℕ

-- What `save_register_state` copies.
abbrev pub interrupted : IntState → CpuState
interrupted state = record {
  cr0 = state.cr0;
  cr2 = state.cr2;
  cr3 = state.cr3;
  eflags = state.eflags;
  eip = state.eip;
  esp = state.esp;
  ebp = state.ebp;
  edi = state.edi;
  esi = state.esi;
  edx = state.edx;
  ecx = state.ecx;
  ebx = state.ebx;
  eax = state.eax;
}

module _ {P : NodePool} where
  abbrev pub set_thread : ℕ → Tib → Scheduler P → Scheduler P
  set_thread thread tib s = record s { threads = λ t. if t == thread then tib else s.threads t }

  abbrev pub set_processor : ℕ → Processor → Scheduler P → Scheduler P
  set_processor cpu proc s = record s {
    processors = λ c. if c == cpu then proc else s.processors c;
  }

  pub pull_next_runnable_thread : Scheduler P → Run (ℕ × Scheduler P)
  pull_next_runnable_thread s = do
    (thread, list) ← linked_list_pop s.ready_list
    let s' = record s { ready_list = list }
    if thread == 0 then ok (thread, s') else (do
      assert (is_ready (s.threads thread).state)
      assert (not (s.threads thread).is_active)
      ok (
        thread,
        set_thread thread (record (s.threads thread) { state = running; is_active = true }) s',
      ))

  pub scheduler_push_ready_thread : (thread : ℕ) → Scheduler P → Run (Scheduler P)
  scheduler_push_ready_thread thread s = do
    let s' = set_thread thread (record (s.threads thread) { is_active = false; state = ready }) s
    (index, list) ← linked_list_enqueue thread s.ready_list
    ok (record s' { ready_list = list })

  pub scheduler_async_leave : (cpu : ℕ) → Scheduler P → Scheduler P
  scheduler_async_leave cpu s =
      set_processor cpu (record (s.processors cpu) { in_scheduler = false })
        (record s { sched_lock = lock_free })

  pub scheduler_leave : (cpu : ℕ) → Scheduler P → Scheduler P
  scheduler_leave cpu s =
      set_processor cpu (record (s.processors cpu) { in_scheduler = false; interrupts = true })
        (record s { sched_lock = lock_free })

  pub scheduler_leave_and_queue : (cpu from_thread : ℕ) → Scheduler P → Run (Scheduler P)
  scheduler_leave_and_queue cpu from_thread s = do
    let s' = set_processor cpu (record (s.processors cpu) { in_scheduler = false }) s
    assert (s'.threads from_thread).is_active
    assert (is_running (s'.threads from_thread).state)
    s'' ← scheduler_push_ready_thread from_thread s'
    ok (record s'' { sched_lock = lock_free })

  abbrev pub save_register_state : (thread : ℕ) → IntState → Scheduler P → Scheduler P
  save_register_state thread state s =
      set_thread thread (record (s.threads thread) { cpu_state = interrupted state }) s

  -- `thread_switch_sync` up to the return of `scheduler_leave_and_queue`, and its `sti` at the end. The
  -- loads of the registers of the other thread between the two are not here. `regs` are the registers
  -- in the call, with the stack as it is after the return.
  pub thread_switch_sync : (cpu from_thread : ℕ) → CpuState → Scheduler P → Run (Scheduler P)
  thread_switch_sync cpu from_thread regs s = do
    let tib = s.threads from_thread
    let saved = record (tib.cpu_state) { esp = regs.esp; ebp = regs.ebp; eip = regs.eip }
    s' ←
        scheduler_leave_and_queue cpu from_thread
          (set_thread from_thread (record tib { cpu_state = saved }) s)
    ok (set_processor cpu (record (s'.processors cpu) { interrupts = true }) s')

  -- `ASSERT(from_thread->state = THREAD_RUNNING)` sets the state, and what it tests is not zero.
  pub scheduler_yield : (cpu : ℕ) → CpuState → Scheduler P → Run (Scheduler P)
  scheduler_yield cpu regs s = do
    let from_thread = (s.processors cpu).current_thread
    let entered = record (s.processors cpu) { in_scheduler = true; interrupts = false }
    let s0 = set_thread from_thread (record (s.threads from_thread) { state = running }) s
    let s1 = record (set_processor cpu entered s0) { sched_lock = lock_busy }
    (to_thread, s2) ← pull_next_runnable_thread s1
    if to_thread == 0 then ok (scheduler_leave cpu s2) else (do
      let tib = s2.threads from_thread
      let saved = record (tib.cpu_state) {
        cr3 = regs.cr3;
        cr2 = regs.cr2;
        cr0 = regs.cr0;
        eflags = regs.eflags;
      }
      let s3 = set_thread from_thread (record tib { cpu_state = saved }) s2
      let s4 = set_processor cpu (record (s3.processors cpu) { current_thread = to_thread }) s3
      assert (not (to_thread == from_thread))
      thread_switch_sync cpu from_thread regs s4)

  -- `thread_switch_async` calls `scheduler_async_leave`.
  pub scheduler_async_enter : (cpu : ℕ) → IntState → Scheduler P → Run (Scheduler P)
  scheduler_async_enter cpu state s = if (s.processors cpu).in_scheduler then ok s else (do
    (to_thread, s1) ← pull_next_runnable_thread (record s { sched_lock = lock_busy })
    if to_thread == 0 then ok (scheduler_async_leave cpu s1) else (do
      let from_thread = (s1.processors cpu).current_thread
      let s2 = save_register_state from_thread state s1
      let s3 = set_processor cpu (record (s2.processors cpu) { current_thread = to_thread }) s2
      s4 ← scheduler_push_ready_thread from_thread s3
      assert (not (from_thread == to_thread))
      ok (scheduler_async_leave cpu s4)))
