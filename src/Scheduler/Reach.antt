-- ===== src/Scheduler/Reach.antt =====
-- Calls of the scheduler in any order, on any of the processors.
use now_os.Base.{
  ℕ, ◌<◌, ◌≡◌, refl, ap, true, arith, Run, ok, Returns, Returns-then, Returns-weaken, ◌>>=◌, List,
  [], ◌∷◌, ◌++◌, length,
}
use mathlib.Core.Path.{subst}
use now_os.LinkedList.{NodePool}
use now_os.LinkedList.Chain.{Cells}
use now_os.Interrupt.{IntState}
use now_os.Scheduler.{
  CpuState, is_running, interrupted, Scheduler, scheduler_yield, scheduler_async_enter,
}
use now_os.Scheduler.Swap.{Scheduled, Switched}
use now_os.Scheduler.Switch.{yield-Switched, yielded}
use now_os.Scheduler.Async.{async_enter-Switched}

-- A thread yields, or the timer of the processor interrupts it.
pub data Call : Type 0 where
  yields : (cpu : ℕ) → CpuState → Call
  ticks : (cpu : ℕ) → IntState → Call

abbrev pub cpu_of : Call → ℕ
cpu_of (yields cpu regs) = cpu
cpu_of (ticks cpu state) = cpu

abbrev AllBelow : ℕ → List Call → Type 0
AllBelow n [] = Unit
AllBelow n (c ∷ cs) = (cpu_of c < n) × AllBelow n cs

-- The registers that a call keeps, over those that were kept before.
abbrev kept_by : Call → (before : CpuState) → CpuState
kept_by (yields cpu regs) before = yielded regs before
kept_by (ticks cpu state) before = interrupted state

append_assoc : (xs ys zs : Cells) → (xs ++ ys) ++ zs ≡ xs ++ (ys ++ zs)
append_assoc [] ys zs = refl
append_assoc (x ∷ xs) ys zs = ap (λ r. x ∷ r) (append_assoc xs ys zs)

module _ {P : NodePool} where
  pub run_call : Call → Scheduler P → Run (Scheduler P)
  run_call (yields cpu regs) s = scheduler_yield cpu regs s
  run_call (ticks cpu state) s = scheduler_async_enter cpu state s

  pub run_calls : List Call → Scheduler P → Run (Scheduler P)
  unfolding run_call
  run_calls [] s = ok s
  run_calls (c ∷ cs) s = do s' ← run_call c s; run_calls cs s'

  -- The systems that calls on the processors below `n` lead to.
  pub data Reachable (n : ℕ) (s0 : Scheduler P) : Scheduler P → Type 0 where
    start : Reachable n s0 s0
    next :
        (s s' : Scheduler P) (c : Call)
        → cpu_of c < n
        → Reachable n s0 s
        → run_call c s ≡ ok s'
        → Reachable n s0 s'

  run_call-Switched :
      (n : ℕ) (c : Call) (s : Scheduler P) (xs : Cells)
      → Scheduled n s xs
      → cpu_of c < n
      → Returns (run_call c s) (
          Switched n
            (cpu_of c)
            (kept_by c (s.threads (s.processors (cpu_of c)).current_thread).cpu_state)
            s
            xs)
  unfolding run_call
  run_call-Switched n (yields cpu regs) s xs v small = yield-Switched n cpu regs s xs v small
  run_call-Switched n (ticks cpu state) s xs v small = async_enter-Switched n cpu state s xs v small

  still-Scheduled :
      (n cpu : ℕ) (saved : CpuState) (s : Scheduler P) (xs : Cells) (s' : Scheduler P)
      → Switched n cpu saved s xs s'
      → (ys : Cells) × Scheduled n s' ys
  still-Scheduled n cpu saved s [] s' (v, e, k) = ([], v)
  still-Scheduled n cpu saved s ((a, t) ∷ xs) s' (node, v, e, k) =
      (xs ++ ((node, (s.processors cpu).current_thread) ∷ []), v)

  reachable-Scheduled :
      (n : ℕ) (s0 s : Scheduler P) (xs : Cells)
      → Scheduled n s0 xs
      → Reachable n s0 s
      → (ys : Cells) × Scheduled n s ys
  reachable-Scheduled n s0 s xs v start = (xs, v)
  reachable-Scheduled n s0 s xs v (next s1 s' c small r e) =
      let (ys, v1) = reachable-Scheduled n s0 s1 xs v r in
      still-Scheduled n (cpu_of c)
        (kept_by c (s1.threads (s1.processors (cpu_of c)).current_thread).cpu_state) s1 ys s'
        (subst
          (λ m. Returns m (
            Switched n (cpu_of c)
              (kept_by c (s1.threads (s1.processors (cpu_of c)).current_thread).cpu_state) s1 ys))
          e (run_call-Switched n c s1 ys v1 small))

  -- From a scheduled system, whatever calls the processors make in whatever order: no thread is on two
  -- processors, each processor's thread is marked as running, and the next call on any of them
  -- meets no failed assertion and returns.
  pub reachable_sound :
      (n : ℕ) (s0 s : Scheduler P) (xs : Cells) (c : Call)
      → Scheduled n s0 xs
      → Reachable n s0 s
      → cpu_of c < n
      → ((i j : ℕ)
          → i < n
          → j < n
          → (s.processors i).current_thread ≡ (s.processors j).current_thread
          → i ≡ j)
        × ((i : ℕ) → i < n → is_running (s.threads (s.processors i).current_thread).state ≡ true)
        × Returns (run_call c s) (λ s'. Unit)
  reachable_sound n s0 s xs c v r small =
      let (ys, v') = reachable-Scheduled n s0 s xs v r in
      (
        v'.apart,
        λ i k. (v'.current i k).0,
        Returns-weaken (run_call c s) _ _ (run_call-Switched n c s ys v' small) (λ s' q. tt),
      )

  -- A thread that `pre` waiting threads stand before runs after one call for each of them, and one
  -- more: it is then on the processor of the last call.
  pub waiting-runs :
      (n : ℕ) (s : Scheduler P) (pre post : Cells) (a thread : ℕ) (cs : List Call) (last : Call)
      → Scheduled n s (pre ++ (a, thread) ∷ post)
      → length cs ≡ length pre
      → AllBelow n cs
      → cpu_of last < n
      → Returns
          (run_calls (cs ++ (last ∷ [])) s)
          (λ s'. (s'.processors (cpu_of last)).current_thread ≡ thread)
  unfolding run_calls
  waiting-runs n s [] post a thread [] last v same below small =
      Returns-then (run_call last s) _ _ (run_call-Switched n last s ((a, thread) ∷ post) v small)
        (λ s' (node, v', cur, kept). ground (arith, cur (cpu_of last)))
  waiting-runs n s ((b, d) ∷ pre) post a thread (c ∷ cs) last v same below small =
      Returns-then (run_call c s) _ _
        (run_call-Switched n c s ((b, d) ∷ pre ++ (a, thread) ∷ post) v below.0)
        (λ s' (node, v', cur, kept).
          waiting-runs n s' pre (post ++ ((node, (s.processors (cpu_of c)).current_thread) ∷ [])) a
            thread cs last
            (rw
              (append_assoc pre ((a, thread) ∷ post)
                ((node, (s.processors (cpu_of c)).current_thread) ∷ []))
              at v')
            (omega arith) below.1 small)
  waiting-runs n s [] post a thread (c ∷ cs) last v same below small = absurd (omega arith)
  waiting-runs n s ((b, d) ∷ pre) post a thread [] last v same below small = absurd (omega arith)
