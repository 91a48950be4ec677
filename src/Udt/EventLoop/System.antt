-- ===== src/Udt/EventLoop/System.antt =====
-- src/udt/udt_event_loop.rs: the thread of `event_loop_impl` and the calls through handles, as
-- interleaved steps on what they share. A call holds the set alive from its `upgrade` to its
-- `insert`; the thread holds it until it returns.
use socket_collection.Base.{
  ◌≡◌, Bool, true, false, List, [], ◌∷◌, ◌++◌, none, some, Result, ok, err, is_empty, ◌&&◌,
  if◌then◌else◌,
}
use mathlib.Core.Logic.{◌≢◌}
use socket_collection.Base.Dict.{add}
use socket_collection.Env.{Crates}
use socket_collection.Error.{Res}
use socket_collection.Udt.Api.{UdtApi}
use socket_collection.Udt.EventLoop.{
  EpollApi, QueuedAction, EventLoop, WeakActions, same_action, on_wait, process,
}
use socket_collection.Udt.EventLoop.Process.{Iterates}

module _ {x : Crates} {api : UdtApi x} (epoll : EpollApi api) where
  -- Where the thread stands: before `epoll.wait`, before the `mem::replace`, before the `for` loop
  -- over the drained actions, or after its `return`.
  pub data Phase : Type 0 where
    waiting draining stopped : Phase
    handling : List (QueuedAction epoll) → Phase

  -- The shared set, and the actions of the calls that have upgraded their reference and not yet
  -- inserted.
  pub record System : Type 0 where
    pub loop : EventLoop epoll
    pub phase : Phase
    pub actions : List (QueuedAction epoll)
    pub calls : List (QueuedAction epoll)

  abbrev pub fresh : epoll.Epoll → System
  fresh state = record {
    loop = record { state = state; token_map = []; notified = [] };
    phase = waiting;
    actions = [];
    calls = [];
  }

  -- `start_event_loop` on the result of `Epoll::create()`: the thread starts with an empty set.
  abbrev pub start_event_loop : Result api.Failure epoll.Epoll → Res x System
  start_event_loop (ok state) = ok (fresh state)
  start_event_loop (err e) = err (api.into_socket_error e)

module _ {x : Crates} {api : UdtApi x} {epoll : EpollApi api} where
  abbrev pub has_stopped : Phase epoll → Bool
  has_stopped waiting = false
  has_stopped draining = false
  has_stopped (handling order) = false
  has_stopped stopped = true

  -- What a handle's weak reference refers to.
  unfoldable pub weak_actions : System epoll → WeakActions epoll
  weak_actions s = if has_stopped s.phase && is_empty s.calls then none else some s.actions

  -- The thread goes on to wait after the `for` loop, unless the loop returned.
  abbrev pub after_process : Bool → Phase epoll
  after_process true = waiting
  after_process false = stopped

  -- A step of a call, which is `queue_action` when nothing comes between the two, or of the thread.
  pub data Step : System epoll → System epoll → Type 0 where
    upgrade :
        {s : System epoll} (a : QueuedAction epoll)
        → weak_actions s ≢ none
        → Step s (record s { calls = a ∷ s.calls })
    insert :
        {s : System epoll} (before : List (QueuedAction epoll)) (a : QueuedAction epoll)
        (after : List (QueuedAction epoll))
        → s.calls ≡ before ++ (a ∷ after)
        → Step s
            (record s { calls = before ++ after; actions = add (same_action epoll) a s.actions })
    wait :
        {s : System epoll} (answer : Result api.Failure (List api.UdtSocket × List api.UdtSocket))
        (state : epoll.Epoll)
        → s.phase ≡ waiting
        → Step s (record s {
          loop = on_wait epoll answer (record s.loop { state = state });
          phase = draining;
        })
    drain :
        {s : System epoll} (order : List (QueuedAction epoll))
        → s.phase ≡ draining
        → Iterates epoll order s.actions
        → Step s (record s { phase = handling order; actions = [] })
    handle :
        {s : System epoll} (order : List (QueuedAction epoll))
        → s.phase ≡ handling order
        → Step s (record s {
          loop = (process epoll order s.loop).1;
          phase = after_process (process epoll order s.loop).0;
        })

  -- The action of the call that the step begins, and the actions that the thread went through.
  abbrev pub asked_by : {s t : System epoll} → Step s t → List (QueuedAction epoll)
  asked_by (upgrade a alive) = a ∷ []
  asked_by (insert before a after e) = []
  asked_by (wait answer state e) = []
  asked_by (drain order e i) = []
  asked_by (handle order e) = []

  abbrev pub done_by : {s t : System epoll} → Step s t → List (QueuedAction epoll)
  done_by (upgrade a alive) = []
  done_by (insert before a after e) = []
  done_by (wait answer state e) = []
  done_by (drain order e i) = []
  done_by (handle {s} order e) = if (process epoll order s.loop).0 then order else []

  abbrev pub is_of_thread : {s t : System epoll} → Step s t → Bool
  is_of_thread (upgrade a alive) = false
  is_of_thread (insert before a after e) = false
  is_of_thread (wait answer state e) = true
  is_of_thread (drain order e i) = true
  is_of_thread (handle order e) = true

  -- The runs from the start of the thread, with the actions that calls were begun for and those
  -- that the thread has gone through, in order.
  pub data Run (state : epoll.Epoll)
      : List (QueuedAction epoll) → List (QueuedAction epoll) → System epoll → Type 0 where
    start : Run state [] [] (fresh epoll state)
    next :
        {asked done : List (QueuedAction epoll)} {s t : System epoll}
        → Run state asked done s
        → (step : Step s t) → Run state (asked_by step ++ asked) (done ++ done_by step) t
