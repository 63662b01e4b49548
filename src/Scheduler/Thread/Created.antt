-- ===== src/Scheduler/Thread/Created.antt =====
-- What `thread_create_thread` makes, and how a processor starts with it.
use now_os.Base.{
  ℕ, suc, ◌<◌, ◌≡◌, ◌≢◌, inl, inr, refl, true, false, arith, Run, ok, panic, ◌==◌, if◌then◌else◌,
  Bool-cases,
}
use now_os.SharedPool.{shared_pool_get_index}
use now_os.SharedPool.Bitmap.{slot, claim, claim-IsPool, IsPool}
use now_os.SharedPool.Entry.{
  address, no_entry, next_entry, get_next-Given, get_index-address, address_in,
}
use now_os.PageHeap.{PageHeap}
use now_os.LinkedList.{NodePool}
use now_os.LinkedList.Chain.{Cells}
use now_os.Scheduler.{CpuState, Scheduler, scheduler_leave}
use now_os.Scheduler.Queue.{waits}
use now_os.Scheduler.Swap.{Scheduled}
use now_os.Scheduler.Thread.{
  Threads, stack_for, new_tib, bytes_at, task_name_len, thread_create_thread, enter_idle,
}

-- What a call may give, when its stack is `stack`.
pub data Created (regs : CpuState) (memory : ℕ → ℕ) (enter stack name : ℕ) (heap : PageHeap)
    (t : Threads) (r : Run (ℕ × Threads)) : Type 0 where
  no_block :
      ((k : ℕ) → k < t.thread_pool.max_obj_num → slot t.thread_pool k ≡ 1)
      → r ≡ panic
      → Created regs memory enter stack name heap t r
  created :
      (k : ℕ)
      → k < t.thread_pool.max_obj_num
      → slot t.thread_pool k ≡ 0
      → r
        ≡ ok (
          address t.thread_pool k,
          record {
            thread_pool = claim k t.thread_pool;
            page_heap = heap;
            blocks = λ b.
                if b == address t.thread_pool k
                then new_tib regs enter stack k (bytes_at task_name_len name memory)
                else t.blocks b;
          },
        )
      → Created regs memory enter stack name heap t r

-- On a pool of threads in memory, and when the stack is found, `thread_create_thread` halts if all
-- blocks are taken. Otherwise it takes a free block and writes this block alone: the thread is
-- ready and inactive, its number is that of its block, and its registers hold `enter` and the stack.
pub create_thread-Created :
    (regs : CpuState) (memory : ℕ → ℕ) (enter stack_addr name stack : ℕ) (heap : PageHeap)
    (t : Threads)
    → IsPool t.thread_pool
    → stack_for stack_addr t.page_heap ≡ ok (stack, heap)
    → stack ≢ 0
    → Created regs memory enter stack name heap t
        (thread_create_thread regs memory enter stack_addr name t)
unfolding thread_create_thread claim address
create_thread-Created regs memory enter stack_addr name stack heap t v found nz =
    elim (get_next-Given t.thread_pool v) [
      | no_entry all e ↦ no_block all (rw e refl)
      | next_entry k small free before e ↦
          (let ok_stack : (stack == 0) ≡ false = ground (arith, nz) in
            let up = (address_in t.thread_pool k v small).0 in
            let at : (address t.thread_pool k == 0) ≡ false = ground (arith, up) in
            let index : shared_pool_get_index (address t.thread_pool k) (claim k t.thread_pool)
                ≡ ok k =
              get_index-address (claim k t.thread_pool) k (claim-IsPool t.thread_pool k v) small in
            created k small free (rw (e, at, index, found, ok_stack) refl))
    ]

module _ {P : NodePool} where
  -- When the processors below `n` run threads, and processor `n` enters its idle thread, which is on no
  -- processor and does not wait, then the system is scheduled with `n + 1` processors.
  pub enter_idle-Scheduled :
      (n idle_thread : ℕ) (s : Scheduler P) (xs : Cells)
      → Scheduled n s xs
      → idle_thread ≢ 0
      → waits idle_thread xs ≡ false
      → ((c : ℕ) → c < n → (s.processors c).current_thread ≢ idle_thread)
      → Scheduled (suc n) (enter_idle n idle_thread s) xs
  unfolding enter_idle scheduler_leave
  enter_idle-Scheduled n idle_thread s xs v nz out fresh = record {
    listed = v.listed;
    few = v.few;
    once = v.once;
    waiting = λ t h.
        let other : (t == idle_thread) ≡ false = ground (arith, h, out) in rw other (v.waiting t h);
    current = λ c k. elim (Bool-cases (c == n)) [
      | inl e ↦
          (let here : (n == n) ≡ true = ground arith in
            let same : (idle_thread == idle_thread) ≡ true = ground arith in
            rw (e, here, same) (refl, refl, nz))
      | inr e ↦
          (let below : c < n = ground (arith, e) in
            let other : ((s.processors c).current_thread == idle_thread) ≡ false =
              ground (arith, fresh c below) in
            rw (e, other) (v.current c below))
    ];
    apart = λ c d k k' e. ground (arith, e, v.apart c d, fresh c, fresh d);
    outside = λ c k. ground (arith, v.outside c);
    unlocked = refl;
  }
