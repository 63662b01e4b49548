-- ===== src/Scheduler/Tests.antt =====
-- Two processors run threads 2000 and 2001, and thread 1000 is ready.
use now_os.Base.{
  ℕ, ◌+◌, ◌≡◌, ◌<◌, refl, Bool, true, false, arith, ok, Returns, [], ◌∷◌, ◌==◌, if◌then◌else◌, bit,
}
use now_os.SharedPool.{SharedPool}
use now_os.SharedPool.Bitmap.{IsPool, slot}
use now_os.SharedPool.Entry.{address}
use now_os.SharedPool.Nodes.{shared_nodes}
use now_os.LinkedList.Chain.{Cells, IsList}
use now_os.Lock.{lock_free}
use now_os.Interrupt.{IntState}
use now_os.PageHeap.{PageHeap}
use now_os.Scheduler.{
  CpuState, ready, running, is_running, interrupted, Tib, Scheduler, scheduler_yield,
  scheduler_async_enter,
}
use now_os.Scheduler.Swap.{Scheduled, Switched}
use now_os.Scheduler.Switch.{yield-Switched, yielded}
use now_os.Scheduler.Async.{async_enter-Switched}
use now_os.Scheduler.Reach.{
  yields, ticks, run_call, run_calls, start, reachable_sound, waiting-runs,
}
use now_os.Scheduler.Thread.{Threads, stack_for, thread_create_thread, enter_idle}
use now_os.Scheduler.Thread.Created.{Created, create_thread-Created, enter_idle-Scheduled}

abbrev nodes : SharedPool
nodes = record {
  buf = 0x1000;
  free_list = λ i. if i == 0 then 1 else 0;
  max_obj_num = 3;
  type_size = 12;
}

nodes-IsPool : IsPool nodes
nodes-IsPool = record {
  not_null = omega arith;
  some_bytes = omega arith;
  in_memory = omega arith;
  few = omega arith;
  is_word = λ i. ground arith;
}

abbrev registers : CpuState
registers = record {
  cr0 = 1;
  cr2 = 2;
  cr3 = 3;
  eflags = 4;
  eip = 5;
  esp = 6;
  ebp = 7;
  edi = 8;
  esi = 9;
  edx = 10;
  ecx = 11;
  ebx = 12;
  eax = 13;
}

abbrev frame : IntState
frame = record {
  cr0 = 1;
  cr2 = 2;
  cr3 = 3;
  esp = 6;
  ebp = 7;
  edi = 8;
  esi = 9;
  edx = 10;
  ecx = 11;
  ebx = 12;
  eax = 13;
  int_num = 48;
  error_code = 0;
  eip = 5;
  cs = 8;
  eflags = 4;
}

abbrev thread_block : Bool → Tib
thread_block active = record {
  cpu_state = registers;
  state = if active then running else ready;
  tid = 0;
  time_used = 0;
  last_time = 0;
  current_priority = 0;
  starting_priority = 0;
  is_active = active;
  enter = 5;
  name = [];
}

abbrev two : Scheduler shared_nodes
two = record {
  threads = λ t. thread_block (if t == 1000 then false else true);
  ready_list = record {
    start_ptr = 0x1000;
    end_ptr = 0x1000;
    node_pool = (nodes, nodes-IsPool);
    size = 1;
    nodes = λ a. record { next_ptr = 0; prev_ptr = 0; content = 1000 };
  };
  processors = λ c. record { current_thread = 2000 + c; in_scheduler = false; interrupts = true };
  sched_lock = lock_free;
}

abbrev waiting : Cells
waiting = (0x1000, 1000) ∷ []

waiting-IsList : IsList two.ready_list waiting
unfolding address slot bit
waiting-IsList = record {
  chain = (refl, omega arith, refl, refl, (refl, refl));
  distinct = (refl, tt);
  sized = refl;
  owned = λ a h. let e : a ≡ 0x1000 = ground (arith, h) in rw e refl;
}

two-Scheduled : Scheduled 2 two waiting
two-Scheduled = record {
  listed = waiting-IsList;
  few = omega arith;
  once = (refl, tt);
  waiting = λ t h. let e : t ≡ 1000 = ground (arith, h) in rw e (omega arith, refl, refl);
  current =
      λ c k. let e : (2000 + c == 1000) ≡ false = ground arith in rw e (refl, refl, omega arith);
  apart = λ c d k k' e. omega (arith, e);
  outside = λ c k. refl;
  unlocked = refl;
}

yield-Switched_example :
    Returns
      (scheduler_yield 0 registers two)
      (Switched 2 0 (yielded registers registers) two waiting)
yield-Switched_example = yield-Switched 2 0 registers two waiting two-Scheduled (omega arith)

async_enter-Switched_example :
    Returns (scheduler_async_enter 1 frame two) (Switched 2 1 (interrupted frame) two waiting)
async_enter-Switched_example =
    async_enter-Switched 2 1 frame two waiting two-Scheduled (omega arith)

reachable_sound_example :
    ((i j : ℕ)
      → i < 2
      → j < 2
      → (two.processors i).current_thread ≡ (two.processors j).current_thread
      → i ≡ j)
    × ((i : ℕ) → i < 2 → is_running (two.threads (two.processors i).current_thread).state ≡ true)
    × Returns (run_call (ticks 1 frame) two) (λ s'. Unit)
reachable_sound_example =
    reachable_sound 2 two two waiting (ticks 1 frame) two-Scheduled start (omega arith)

waiting-runs_example :
    Returns
      (run_calls (yields 1 registers ∷ []) two)
      (λ s'. (s'.processors 1).current_thread ≡ 1000)
waiting-runs_example =
    waiting-runs 2 two [] [] 0x1000 1000 [] (yields 1 registers) two-Scheduled refl tt (omega arith)

enter_idle-Scheduled_example : Scheduled 3 (enter_idle 2 3000 two) waiting
enter_idle-Scheduled_example =
    enter_idle-Scheduled 2 3000 two waiting two-Scheduled (omega arith) refl
      (λ c k e. omega (arith, e))

no_pages : PageHeap
no_pages = record {
  page_list = record { byte = λ i. 0; size = 0; free = 0; lock = 0 };
  page_ptr = 0;
}

abbrev threads : Threads
threads = record { thread_pool = nodes; page_heap = no_pages; blocks = λ b. thread_block false }

given_stack : stack_for 0x9000 no_pages ≡ ok (0x9000, no_pages)
unfolding stack_for
given_stack = refl

create_thread-Created_example :
    Created registers
      (λ a. 0)
      0x100
      0x9000
      0x7000
      no_pages
      threads
      (thread_create_thread registers (λ a. 0) 0x100 0x9000 0x7000 threads)
create_thread-Created_example =
    create_thread-Created registers (λ a. 0) 0x100 0x9000 0x7000 0x9000 no_pages threads
      nodes-IsPool given_stack (omega arith)
