-- ===== src/Scheduler/Thread.antt =====
-- kernel/thread.c: making a thread. Its block comes from the shared pool `thread_pool`, and its stack
-- from the page heap unless the caller gives one.
pub mod Created
use now_os.Base.{
  ℕ, zero, suc, ◌+◌, ◌≡◌, Bool, true, false, not, List, [], ◌∷◌, Run, ok, panic, ◌>>=◌, ◌>>◌,
  assert, ◌==◌, if◌then◌else◌, u32, page_size,
}
use now_os.SharedPool.{SharedPool, shared_pool_get_next, shared_pool_get_index}
use now_os.PageHeap.{PageHeap, kmalloc_page}
use now_os.LinkedList.{NodePool}
use now_os.Scheduler.{
  CpuState, ready, running, Tib, Processor, Scheduler, set_thread, set_processor, scheduler_leave,
}

abbrev pub task_name_len : ℕ
task_name_len = 64

-- The `count` bytes that `memcpy` copies from an address.
pub bytes_at : (count from : ℕ) → (memory : ℕ → ℕ) → List ℕ
bytes_at zero from memory = []
bytes_at (suc n) from memory = memory from ∷ bytes_at n (from + 1) memory

pub record Threads : Type 0 where
  pub thread_pool : SharedPool
  pub page_heap : PageHeap
  pub blocks : ℕ → Tib

-- The stack of a new thread: the one given, or the top of a new page.
unfoldable pub stack_for : (stack_addr : ℕ) → PageHeap → Run (ℕ × PageHeap)
stack_for stack_addr heap =
    if stack_addr == 0
    then (do (page, heap') ← kmalloc_page heap; ok (u32 (page + page_size), heap'))
    else ok (stack_addr, heap)

-- The block that `memset` and the assignments leave.
pub new_tib : (regs : CpuState) (enter stack_addr tid : ℕ) (name : List ℕ) → Tib
new_tib regs enter stack_addr tid name = record {
  cpu_state = record {
    cr0 = regs.cr0;
    cr2 = regs.cr2;
    cr3 = regs.cr3;
    eflags = regs.eflags;
    eip = enter;
    esp = stack_addr;
    ebp = 0;
    edi = 0;
    esi = 0;
    edx = 0;
    ecx = 0;
    ebx = 0;
    eax = 0;
  };
  state = ready;
  tid = tid;
  time_used = 0;
  last_time = 0;
  current_priority = 0;
  starting_priority = 0;
  is_active = false;
  enter = enter;
  name = name;
}

pub thread_create_thread :
    (regs : CpuState) (memory : ℕ → ℕ) (enter stack_addr name : ℕ) → Threads → Run (ℕ × Threads)
unfolding new_tib
thread_create_thread regs memory enter stack_addr name t = do
  (thread, pool) ← shared_pool_get_next t.thread_pool
  if thread == 0 then panic else (do
    tid ← shared_pool_get_index thread pool
    (stack, heap) ← stack_for stack_addr t.page_heap
    assert (not (stack == 0))
    let tib = new_tib regs enter stack tid (bytes_at task_name_len name memory)
    ok (
      thread,
      record {
        thread_pool = pool;
        page_heap = heap;
        blocks = λ b. if b == thread then tib else t.blocks b;
      },
    ))

module _ {P : NodePool} where
  -- What `scheduler_init` does with the idle thread of a processor, from the lock on, and
  -- `thread_enter` up to the call of the thread's function.
  pub enter_idle : (cpu idle_thread : ℕ) → Scheduler P → Scheduler P
  enter_idle cpu idle_thread s =
      let s1 =
        set_thread idle_thread
          (record (s.threads idle_thread) { state = running; is_active = true }) s in
      let s2 = set_processor cpu (record (s1.processors cpu) { current_thread = idle_thread }) s1 in
      scheduler_leave cpu s2
