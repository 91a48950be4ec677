-- ===== src/Udt/EventLoop/Progress.antt =====
-- src/udt/udt_event_loop.rs: no call's action is lost while the thread runs.
use socket_collection.Base.{
  ◌≡◌, refl, sym, subst, Bool, true, false, List, [], ◌++◌, none, inl, inr, if◌then◌else◌,
}
use mathlib.Core.Logic.{◌≢◌}
use mathlib.Core.List.{Memᴰ}
use mathlib.Core.List.Memᴰ
use socket_collection.Base.Dict.{get, add, of_Memᴰ-insert, Memᴰ-add_self, Memᴰ-add_other}
use socket_collection.Env.{Crates}
use socket_collection.Udt.Api.{UdtApi}
use socket_collection.Udt.EventLoop.{EpollApi, QueuedAction, same_action, process}
use socket_collection.Udt.EventLoop.System.{
  Phase, System, after_process, Step, asked_by, done_by, Run,
}
use socket_collection.Udt.EventLoop.Process.{token_of}
use socket_collection.Udt.EventLoop.Tokens.{replayed, next-replayed}
use socket_collection.Udt.EventLoop.Runs.{in_hand}

module _ {x : Crates} {api : UdtApi x} {epoll : EpollApi api} where
  -- Where an action can be that was asked for: with a call, in the set, with the thread, or done.
  pub data Held (a : QueuedAction epoll) (done : List (QueuedAction epoll)) (s : System epoll)
      : Type 0 where
    in_call : Memᴰ a s.calls → Held a done s
    in_set : Memᴰ a s.actions → Held a done s
    with_thread : Memᴰ a (in_hand s.phase) → Held a done s
    carried_out : Memᴰ a done → Held a done s

  held-by_handle :
      (a : QueuedAction epoll) (goes_on : Bool) (order done : List (QueuedAction epoll))
      → after_process {epoll = epoll} goes_on ≢ Phase.stopped
      → Memᴰ a order
      → Memᴰ a (done ++ (if goes_on then order else []))
  held-by_handle a true order done h m = Memᴰ.append_right done m
  held-by_handle a false order done h m = absurd (h refl)

  step-Held :
      (a : QueuedAction epoll) (done : List (QueuedAction epoll)) {s t : System epoll}
      (step : Step s t)
      → t.phase ≢ Phase.stopped
      → Held a done s
      → Held a (done ++ done_by step) t
  step-Held a done step h (Held.carried_out m) =
      Held.carried_out (Memᴰ.append_left (done_by step) m)
  step-Held a done (Step.upgrade b alive) h (Held.in_call m) = Held.in_call (Memᴰ.tail m)
  step-Held a done (Step.upgrade b alive) h (Held.in_set m) = Held.in_set m
  step-Held a done (Step.upgrade b alive) h (Held.with_thread m) = Held.with_thread m
  step-Held a done (Step.insert {s} before b after e) h (Held.in_call m) =
      elim (of_Memᴰ-insert before b after (subst (λ l. Memᴰ a l) e m)) [
        | inl new ↦ Held.in_set (
            subst (λ c. Memᴰ c (add (same_action epoll) b s.actions)) (sym new)
              (Memᴰ-add_self (same_action epoll) b s.actions))
        | inr old ↦ Held.in_call old
      ]
  step-Held a done (Step.insert {s} before b after e) h (Held.in_set m) =
      Held.in_set (Memᴰ-add_other (same_action epoll) b s.actions m)
  step-Held a done (Step.insert before b after e) h (Held.with_thread m) = Held.with_thread m
  step-Held a done (Step.wait answer state e) h (Held.in_call m) = Held.in_call m
  step-Held a done (Step.wait answer state e) h (Held.in_set m) = Held.in_set m
  step-Held a done (Step.wait answer state e) h (Held.with_thread m) =
      elim (subst (λ p. Memᴰ a (in_hand p)) e m) [ ]
  step-Held a done (Step.drain order e i) h (Held.in_call m) = Held.in_call m
  step-Held a done (Step.drain order e i) h (Held.in_set m) = Held.with_thread ((i.1 a).1 m)
  step-Held a done (Step.drain order e i) h (Held.with_thread m) =
      elim (subst (λ p. Memᴰ a (in_hand p)) e m) [ ]
  step-Held a done (Step.handle order e) h (Held.in_call m) = Held.in_call m
  step-Held a done (Step.handle order e) h (Held.in_set m) = Held.in_set m
  step-Held a done (Step.handle {s} order e) h (Held.with_thread m) = Held.carried_out (
      held-by_handle a (process epoll order s.loop).0 order done h
        (subst (λ p. Memᴰ a (in_hand p)) e m))

  -- A stopped thread stays where it is.
  pub step-stopped :
      {s t : System epoll}
      → Step s t
      → s.phase ≡ Phase.stopped
      → (t.phase ≡ Phase.stopped) × (t.loop ≡ s.loop)
  step-stopped (Step.upgrade a alive) h = (h, refl)
  step-stopped (Step.insert before a after e) h = (h, refl)
  step-stopped (Step.wait answer state e) h = absurd cc
  step-stopped (Step.drain order e i) h = absurd cc
  step-stopped (Step.handle order e) h = absurd cc

  asked-Held :
      {s t : System epoll} {done : List (QueuedAction epoll)} (step : Step s t)
      (a : QueuedAction epoll)
      → Memᴰ a (asked_by step)
      → Held a done t
  asked-Held (Step.upgrade b alive) a (Memᴰ.head e) = Held.in_call (Memᴰ.head e)
  asked-Held (Step.upgrade b alive) a (Memᴰ.tail m) = elim m [ ]
  asked-Held (Step.insert before b after e) a m = elim m [ ]
  asked-Held (Step.wait answer state e) a m = elim m [ ]
  asked-Held (Step.drain order e i) a m = elim m [ ]
  asked-Held (Step.handle order e) a m = elim m [ ]

  -- In every run, while the thread has not returned, every action that a call was begun for is
  -- still with its call, in the set or with the thread, or the thread has gone through it; and the
  -- token that the loop has for a socket is what the actions that the thread has gone through,
  -- carried out one after the other, give the socket: the last registration's, if no
  -- deregistration came after it.
  pub run-Held :
      {state : epoll.Epoll} {asked done : List (QueuedAction epoll)} {s : System epoll}
      → Run state asked done s
      → s.phase ≢ Phase.stopped
      → ((a : QueuedAction epoll) → Memᴰ a asked → Held a done s)
        × ((sock : api.UdtSocket) → token_of epoll sock s.loop ≡ replayed epoll sock none done)
  unfolding get
  run-Held Run.start h = (λ a m. elim m [ ], λ sock. refl)
  run-Held (Run.next {asked} {done} {s} {t} r step) h =
      let (held, tokens) = run-Held r (λ e. h (step-stopped step e).0) in
      (
        λ a m. elim (Memᴰ.append_cases (asked_by step) m) [
          | inl new ↦ asked-Held step a new
          | inr old ↦ step-Held a done step h (held a old)
        ],
        λ sock. next-replayed sock done step h (tokens sock),
      )
