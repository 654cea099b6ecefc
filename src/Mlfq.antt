-- ===== src/Mlfq.antt =====
-- The multi-level feedback queues that xv6/kernel/proc.c and trap.c add to the kernel. A process is its
-- place in `proc`, and a pointer to one is an option of a place. A function is one step:
-- there is one processor, and no other call or interrupt comes between the locks that it takes.
pub mod Fifo
pub mod Levels
pub mod Highest
pub mod Slices
pub mod Runnable
pub mod Boost
pub mod Processes
pub mod Exits
pub mod Clock
pub mod Ready
pub mod Woken
pub mod Awake
pub mod Started
pub mod Ended
pub mod Fewer
pub mod Chosen
pub mod Switched
pub mod Boosted
pub mod Life
use c_shell.Base.{
  ℕ, zero, suc, ◌+◌, Bool, true, false, List, [], ◌∷◌, Option, some, none, ltb, leb, ◌==◌,
  if◌then◌else◌,
}

-- `enum procstate`
pub data ProcState : Type 0 where
  unused used sleeping runnable running zombie : ProcState

-- What a process sleeps on: the address of a process or of another object.
pub data Channel : Type 0 where
  process : ℕ → Channel
  object : ℕ → Channel

-- What proc.c keeps of `struct proc`, without its memory, files and directory. A tick that is not set, -1
-- in the code, is `none`.
pub record Proc : Type 0 where
  pub state : ProcState
  pub chan : Option Channel
  pub killed : Bool
  pub xstate : ℕ
  pub pid : ℕ
  pub parent : Option ℕ
  pub priority : ℕ
  pub ticks_used : ℕ
  pub rtime : ℕ
  pub next : Option ℕ
  pub arrival_tick : ℕ
  pub first_run_tick : Option ℕ
  pub completion_tick : Option ℕ
  pub waiting_ticks : ℕ

abbrev pub state_runnable : ProcState → Bool
state_runnable unused = false
state_runnable used = false
state_runnable sleeping = false
state_runnable runnable = true
state_runnable running = false
state_runnable zombie = false

-- `p->state == RUNNABLE`
abbrev pub is_runnable : Proc → Bool
is_runnable p = state_runnable p.state

-- `struct proc_queue`
pub record ProcQueue : Type 0 where
  pub head : Option ℕ
  pub tail : Option ℕ

-- `proc` and `queues`.
pub record Kernel : Type 0 where
  pub procs : ℕ → Proc
  pub queues : ℕ → ProcQueue

abbrev pub set {ℓ} : {A : Type ℓ} → ℕ → A → (ℕ → A) → ℕ → A
set i a f j = if j == i then a else f j

-- `p->next = n`
abbrev pub set_next : ℕ → Option ℕ → Kernel → Kernel
set_next p n k = record k { procs = set p (record (k.procs p) { next = n }) k.procs }

abbrev pub set_queue : ℕ → ProcQueue → Kernel → Kernel
set_queue q v k = record k { queues = set q v k.queues }

-- Behind `p->next = 0`, at the tail of the queue.
abbrev pub append_to : ℕ → ℕ → Option ℕ → Kernel → Kernel
append_to q p none k = set_queue q (record { head = some p; tail = some p }) k
append_to q p (some t) k =
    set_queue q (record { head = (k.queues q).head; tail = some p }) (set_next t (some p) k)

unfoldable pub enqueue : ℕ → ℕ → Kernel → Kernel
enqueue q p k = append_to q p (k.queues q).tail (set_next p none k)

-- `if (queues[q].head == 0) queues[q].tail = 0`
abbrev pub tail_behind : Option ℕ → Option ℕ → Option ℕ
tail_behind none tail = none
tail_behind (some n) tail = tail

abbrev pub take_head : ℕ → Option ℕ → Kernel → Option ℕ × Kernel
take_head q none k = (none, k)
take_head q (some p) k =
    let n = (k.procs p).next in
    (
      some p,
      set_next p none (set_queue q (record { head = n; tail = tail_behind n (k.queues q).tail }) k),
    )

unfoldable pub deque : ℕ → Kernel → Option ℕ × Kernel
deque q k = take_head q (k.queues q).head k

abbrev pub or_else : Option ℕ × Kernel → (Kernel → Option ℕ × Kernel) → Option ℕ × Kernel
or_else (some p, k) rest = (some p, k)
or_else (none, k) rest = rest k

-- The loop of `deque_highest_priority_p` over `left` queues from queue `i` on.
unfoldable pub deque_from : ℕ → ℕ → Kernel → Option ℕ × Kernel
unfolding deque
deque_from zero i k = (none, k)
deque_from (suc left) i k = or_else (deque i k) (deque_from left (suc i))

unfoldable pub deque_highest_priority_p : Kernel → Option ℕ × Kernel
unfolding deque_from
deque_highest_priority_p k = deque_from 4 0 k

-- `time_slice`; the array has four places.
abbrev pub time_slice : ℕ → ℕ
time_slice zero = 1
time_slice (suc zero) = 4
time_slice (suc (suc zero)) = 8
time_slice (suc (suc (suc n))) = 16

unfoldable pub mlfq_tick : Proc → Bool × Proc
mlfq_tick p =
    let p' : Proc = record p { ticks_used = p.ticks_used + 1 } in
    (leb (time_slice p'.priority) p'.ticks_used, p')

unfoldable pub mlfq_timeslice_expired : Proc → Proc
mlfq_timeslice_expired p = record p {
  priority = if ltb p.priority 3 then p.priority + 1 else p.priority;
  ticks_used = 0;
}

abbrev pub is_some : Option ℕ → Bool
is_some none = false
is_some (some p) = true

-- The loop of `mlfq_highest_priority_ready`, over the queues below `n`: the answer does not depend on
-- their order.
unfoldable pub ready_below : ℕ → Kernel → Bool
ready_below zero k = false
ready_below (suc n) k =
    let rest = ready_below n k in if is_some (k.queues n).head then true else rest

-- The timer interrupt, for the process that runs: whether it yields, and the process afterwards.
unfoldable pub timer : Kernel → Proc → Bool × Proc
unfolding mlfq_tick mlfq_timeslice_expired ready_below
timer k p =
    let r = mlfq_tick p in
    if r.0 then (true, mlfq_timeslice_expired r.1) else (ready_below p.priority k, r.1)

-- `yield` up to the switch: the process is runnable and goes to the queue of its priority.
unfoldable pub yield : ℕ → Kernel → Kernel
unfolding enqueue
yield p k =
    let k' : Kernel = record k {
      procs = set p (record (k.procs p) { state = runnable }) k.procs;
    } in
    enqueue (k.procs p).priority p k'

-- `p->priority = 0; p->ticks_used = 0`
abbrev pub boosted : Proc → Proc
boosted p = record p { priority = 0; ticks_used = 0 }

-- A process that `mlfq_boost` has taken from its queue.
unfoldable pub boost_one : ℕ → Kernel → Kernel
unfolding enqueue
boost_one p k =
    if is_runnable (k.procs p)
    then enqueue 0 p (record k { procs = set p (boosted (k.procs p)) k.procs })
    else k

abbrev pub boost_rest : Option ℕ × Kernel → (Kernel → Option Kernel) → Option Kernel
boost_rest (none, k) go = some k
boost_rest (some p, k) go = go (boost_one p k)

-- The `while` loop over queue `q`; `none` if the rounds given are used up before it is empty.
unfoldable pub boost_queue : ℕ → ℕ → Kernel → Option Kernel
unfolding deque boost_one
boost_queue zero q k = none
boost_queue (suc rounds) q k = boost_rest (deque q k) (boost_queue rounds q)

infixl 5 ◌>>=◌
abbrev pub ◌>>=◌ : Option Kernel → (Kernel → Option Kernel) → Option Kernel
some a >>= f = f a
none >>= f = none

-- The loop over the process table at the end.
abbrev pub reset_all : Kernel → Kernel
reset_all k = record k { procs = λ p. boosted (k.procs p) }

unfoldable pub mlfq_boost : ℕ → Kernel → Option Kernel
unfolding boost_queue
mlfq_boost rounds k = do
  k1 ← boost_queue rounds 1 k
  k2 ← boost_queue rounds 2 k1
  k3 ← boost_queue rounds 3 k2
  some (reset_all k3)
