-- ===== src/Udt/EventLoop/Shutdown.antt =====
-- src/udt/udt_event_loop.rs: the thread ends after `Drop for EpollLoop`.
use socket_collection.Base.{
  ℕ, ◌+◌, ◌≤◌, ◌≡◌, refl, ap, subst, ◌∙◌, Bool, true, false, List, [], ◌∷◌, some, ok, ◌⊎◌, inl, inr,
  if◌then◌else◌, arith,
}
use mathlib.Core.Option.{some-injective}
use mathlib.Core.List.{Memᴰ}
use socket_collection.Base.Dict.{Memᴰ-add_self, Memᴰ-add_other}
use socket_collection.Env.{Crates}
use socket_collection.Udt.Api.{UdtApi}
use socket_collection.Udt.EventLoop.{
  EpollApi, QueuedAction, EventLoop, same_action, process, queue_action, drop_epoll_loop,
  on_register, on_deregister,
}
use socket_collection.Udt.EventLoop.System.{Phase, System, after_process, Step, is_of_thread}

module _ {x : Crates} {api : UdtApi x} {epoll : EpollApi api} where
  -- A sequence of steps, with the number of those that the thread takes.
  pub data Steps : ℕ → System epoll → System epoll → Type 0 where
    stay : {s : System epoll} → Steps 0 s s
    then :
        {n : ℕ} {s t u : System epoll} (steps : Steps n s t) (step : Step t u)
        → Steps ((if is_of_thread step then 1 else 0) + n) s u

  -- The number of steps that the thread has left at most, with a shutdown on its way.
  data Ending : ℕ → System epoll → Type 0 where
    ended : {s : System epoll} → s.phase ≡ Phase.stopped → Ending 0 s
    in_hand :
        {s : System epoll} (order : List (QueuedAction epoll))
        → s.phase ≡ Phase.handling order
        → Memᴰ QueuedAction.shutdown_event_loop order
        → Ending 1 s
    drains :
        {s : System epoll}
        → s.phase ≡ Phase.draining
        → Memᴰ QueuedAction.shutdown_event_loop s.actions
        → Ending 2 s
    waits :
        {s : System epoll}
        → s.phase ≡ Phase.waiting
        → Memᴰ QueuedAction.shutdown_event_loop s.actions
        → Ending 3 s
    handles :
        {s : System epoll} (order : List (QueuedAction epoll))
        → s.phase ≡ Phase.handling order
        → Memᴰ QueuedAction.shutdown_event_loop s.actions
        → Ending 4 s

  process-shutdown :
      (order : List (QueuedAction epoll)) (s : EventLoop epoll)
      → Memᴰ QueuedAction.shutdown_event_loop order
      → (process epoll order s).0 ≡ false
  unfolding process
  process-shutdown [] s m = elim m [ ]
  process-shutdown (QueuedAction.register sock token events ∷ order) s (Memᴰ.head e) = absurd cc
  process-shutdown (QueuedAction.register sock token events ∷ order) s (Memᴰ.tail m) =
      process-shutdown order (on_register epoll sock token events s) m
  process-shutdown (QueuedAction.deregister sock ∷ order) s (Memᴰ.head e) = absurd cc
  process-shutdown (QueuedAction.deregister sock ∷ order) s (Memᴰ.tail m) =
      process-shutdown order (on_deregister epoll sock s) m
  process-shutdown (QueuedAction.shutdown_event_loop ∷ order) s m = refl

  starts-Ending :
      (s : System epoll)
      → Memᴰ QueuedAction.shutdown_event_loop s.actions
      → (n : ℕ) × Ending n s × (n ≤ 4)
  starts-Ending s m = go s.phase refl
    where
      go : (p : Phase epoll) → s.phase ≡ p → (n : ℕ) × Ending n s × (n ≤ 4)
      go Phase.waiting e = (3, Ending.waits e m, omega arith)
      go Phase.draining e = (2, Ending.drains e m, omega arith)
      go Phase.stopped e = (0, Ending.ended e, omega arith)
      go (Phase.handling order) e = (4, Ending.handles order e m, omega arith)

  -- The step takes the count down by what the thread does.
  abbrev LessLeft : {s t : System epoll} → ℕ → Step s t → Type 0
  LessLeft {s} {t} n step = (m : ℕ) × Ending m t × (m + (if is_of_thread step then 1 else 0) ≤ n)

  -- A call leaves the thread where it is and takes nothing out of the set.
  kept-Ending :
      {s t : System epoll} {n : ℕ}
      → t.phase ≡ s.phase
      → (Memᴰ QueuedAction.shutdown_event_loop s.actions
          → Memᴰ QueuedAction.shutdown_event_loop t.actions)
      → Ending n s
      → Ending n t
  kept-Ending e f (Ending.ended p) = Ending.ended (e ∙ p)
  kept-Ending e f (Ending.in_hand order p m) = Ending.in_hand order (e ∙ p) m
  kept-Ending e f (Ending.drains p m) = Ending.drains (e ∙ p) (f m)
  kept-Ending e f (Ending.waits p m) = Ending.waits (e ∙ p) (f m)
  kept-Ending e f (Ending.handles order p m) = Ending.handles order (e ∙ p) (f m)

  after-Ending :
      (t : System epoll) (goes_on : Bool)
      → t.phase ≡ after_process goes_on
      → Memᴰ QueuedAction.shutdown_event_loop t.actions
      → (m : ℕ) × Ending m t × (m + 1 ≤ 4)
  after-Ending t true e m = (3, Ending.waits e m, omega arith)
  after-Ending t false e m = (0, Ending.ended e, omega arith)

  same_order :
      (s : System epoll) {order other : List (QueuedAction epoll)}
      → s.phase ≡ Phase.handling order
      → s.phase ≡ Phase.handling other
      → order ≡ other
  same_order s e p = cc

  step-Ending : {s t : System epoll} {n : ℕ} (step : Step s t) → Ending n s → LessLeft n step
  step-Ending {s} {t} {n} (Step.upgrade a alive) h = (n, kept-Ending refl (λ m. m) h, omega arith)
  step-Ending {n} (Step.insert {s} before a after e) h =
      (n, kept-Ending refl (λ m. Memᴰ-add_other (same_action epoll) a s.actions m) h, omega arith)
  step-Ending (Step.wait answer state e) (Ending.waits p m) = (2, Ending.drains refl m, omega arith)
  step-Ending (Step.wait answer state e) (Ending.ended p) = absurd cc
  step-Ending (Step.wait answer state e) (Ending.in_hand order p m) = absurd cc
  step-Ending (Step.wait answer state e) (Ending.drains p m) = absurd cc
  step-Ending (Step.wait answer state e) (Ending.handles order p m) = absurd cc
  step-Ending (Step.drain order e i) (Ending.drains p m) =
      (1, Ending.in_hand order refl ((i.1 QueuedAction.shutdown_event_loop).1 m), omega arith)
  step-Ending (Step.drain order e i) (Ending.ended p) = absurd cc
  step-Ending (Step.drain order e i) (Ending.in_hand other p m) = absurd cc
  step-Ending (Step.drain order e i) (Ending.waits p m) = absurd cc
  step-Ending (Step.drain order e i) (Ending.handles other p m) = absurd cc
  step-Ending (Step.handle {s} order e) (Ending.in_hand other p m) = (
    0,
    Ending.ended (
        ap after_process (
          process-shutdown order s.loop
            (subst (λ l. Memᴰ QueuedAction.shutdown_event_loop l) (same_order s p e) m))),
    omega arith,
  )
  step-Ending (Step.handle {s} order e) (Ending.handles other p m) =
      after-Ending _ (process epoll order s.loop).0 refl m
  step-Ending (Step.handle order e) (Ending.ended p) = absurd cc
  step-Ending (Step.handle order e) (Ending.drains p m) = absurd cc
  step-Ending (Step.handle order e) (Ending.waits p m) = absurd cc

  Steps-Ending :
      {s t : System epoll} {n k : ℕ} → Steps k s t → Ending n s → (m : ℕ) × Ending m t × (m + k ≤ n)
  Steps-Ending {n} Steps.stay h = (n, h, omega arith)
  Steps-Ending (Steps.then steps step) h =
      let (m, h', l) = Steps-Ending steps h in
      let (m', h'', l') = step-Ending step h' in (m', h'', omega (arith, l, l'))

  -- The thread is never stuck before it has returned.
  thread_step :
      (t : System epoll)
      → (t.phase ≡ Phase.stopped)
        ⊎ ((u : System epoll) × (step : Step t u) × (is_of_thread step ≡ true))
  thread_step t = go t.phase refl
    where
      go :
          (p : Phase epoll)
          → t.phase ≡ p
          → (t.phase ≡ Phase.stopped)
            ⊎ ((u : System epoll) × (step : Step t u) × (is_of_thread step ≡ true))
      go Phase.waiting e = inr (_, Step.wait (ok ([], [])) t.loop.state e, refl)
      go Phase.draining e = inr (_, Step.drain t.actions e (refl, λ a. (λ m. m, λ m. m)), refl)
      go (Phase.handling order) e = inr (_, Step.handle order e, refl)
      go Phase.stopped e = inl e

  -- Once `Drop for EpollLoop` has put the shutdown in the set, the thread returns: whatever the
  -- calls and the epoll do, it takes at most four more steps, and as long as it has not returned it
  -- can take a step.
  pub drop-stops :
      {s t : System epoll} (actions : List (QueuedAction epoll)) {k : ℕ}
      → drop_epoll_loop epoll (some actions) ≡ some s.actions
      → Steps k s t
      → (k ≤ 4)
        × ((t.phase ≡ Phase.stopped)
            ⊎ ((u : System epoll) × (step : Step t u) × (is_of_thread step ≡ true)))
  unfolding drop_epoll_loop queue_action
  drop-stops {s} {t} actions e steps =
      let (n, h, l) = starts-Ending s (
        subst (λ set. Memᴰ QueuedAction.shutdown_event_loop set) (some-injective _ _ e)
          (Memᴰ-add_self (same_action epoll) QueuedAction.shutdown_event_loop actions)) in
      let (m, h', l') = Steps-Ending steps h in (omega (arith, l, l'), thread_step t)
