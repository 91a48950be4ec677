-- ===== src/Tests/Epoll.antt =====
-- Witnesses for the event loop of src/udt/udt_event_loop.rs.
use socket_collection.Base.{
  ℕ, ◌≡◌, ◌≤◌, refl, List, [], ◌∷◌, ◌++◌, none, some, Result, ok, err, true, ◌⊎◌,
}
use native.Mathlib.Decide.{ℕ_discrete}
use mathlib.Core.Logic.{◌≢◌}
use mathlib.Core.Option.{some-ne-none}
use mathlib.Core.List.{Memᴰ}
use socket_collection.Base.Dict.{add, get, remove, insert}
use socket_collection.Error.{IoError}
use socket_collection.Udt.EventLoop.{
  Event, Ready, Readiness, event_set, queue_action, QueuedAction, EventLoop, handle_register,
  handle_deregister, drop_epoll_loop, process, on_register, on_wait, notify_all, notify,
}
use socket_collection.Udt.EventLoop.Process.{token_of, Iterates, register-then-deregister}
use socket_collection.Udt.EventLoop.System.{
  Phase, System, fresh, weak_actions, Step, is_of_thread, Run,
}
use socket_collection.Udt.EventLoop.Requests.{Registers, Requested}
use socket_collection.Udt.EventLoop.Tokens.{replayed}
use socket_collection.Udt.EventLoop.Runs.{run-Requested}
use socket_collection.Udt.EventLoop.Progress.{Held, run-Held}
use socket_collection.Udt.EventLoop.Shutdown.{Steps, drop-stops}
use socket_collection.Udt.Inner.{Inner}
use socket_collection.Udt.Sock.{register, inner_register}
use socket_collection.Udt.Sock.Registration.{register-token_of}
use socket_collection.Tests.Library.{library, epoll, epoll-WatchLaws}

-- Socket 3 is registered with token 30.
abbrev register_3 : QueuedAction epoll
register_3 = QueuedAction.register 3 30 13

abbrev empty_loop : EventLoop epoll
empty_loop = record { state = []; token_map = []; notified = [] }

abbrev both_ways : Ready
both_ways = record { is_readable = true; is_writable = true }

register-then-deregister_example :
    (order : List (QueuedAction epoll)) × (other : List (QueuedAction epoll)) × (handle_deregister
        epoll
        (handle_register epoll (some []) 3 30 both_ways).1
        3
      ≡ (ok tt, some order))
    × Iterates epoll other order
    × (token_of epoll 3 (process epoll order empty_loop).1 ≡ none)
    × (token_of epoll 3 (process epoll other empty_loop).1 ≡ some 30)
register-then-deregister_example = register-then-deregister epoll 3 30 both_ways empty_loop

-- The socket is registered, the loop waits, drains and carries it out, and waits again.
alive : weak_actions (fresh epoll []) ≢ none
unfolding weak_actions
alive = some-ne-none []

abbrev ready_3 : Result ℕ (List ℕ × List ℕ)
ready_3 = ok (3 ∷ [], [])

abbrev in_hand : System epoll
in_hand = record {
  loop = empty_loop;
  phase = Phase.handling (register_3 ∷ []);
  actions = [];
  calls = [];
}

run_to_hand : Run [] (register_3 ∷ []) [] in_hand
unfolding add on_wait notify_all notify get
run_to_hand =
    Run.next
      (Run.next
        (Run.next (Run.next Run.start (Step.upgrade register_3 alive))
          (Step.insert [] register_3 [] refl))
        (Step.wait ready_3 [] refl))
      (Step.drain (register_3 ∷ []) refl (refl, λ a. (λ m. m, λ m. m)))

abbrev notified_loop : EventLoop epoll
notified_loop = record {
  state = [];
  token_map = (3, 30) ∷ [];
  notified = record { readiness = Readiness.readable; token = 30 } ∷ [];
}

abbrev notified_once : System epoll
notified_once = record { loop = notified_loop; phase = Phase.draining; actions = []; calls = [] }

run_to_notified : Run [] (register_3 ∷ []) (register_3 ∷ []) notified_once
unfolding process on_register remove insert on_wait notify_all notify get ℕ_discrete
run_to_notified =
    Run.next (Run.next run_to_hand (Step.handle (register_3 ∷ []) refl)) (Step.wait ready_3 [] refl)

run-Held_example :
    ((a : QueuedAction epoll) → Memᴰ a (register_3 ∷ []) → Held a (register_3 ∷ []) notified_once)
    × ((sock : ℕ) → token_of epoll sock notified_loop ≡ replayed epoll sock none (register_3 ∷ []))
run-Held_example = run-Held run_to_notified (λ e. cc)

run-Requested_example :
    ((sock : ℕ) (token : ℕ)
      → token_of epoll sock notified_loop ≡ some token
      → Registers epoll (λ a. Memᴰ a (register_3 ∷ [])) sock token)
    × ((e : Event)
        → Memᴰ e notified_loop.notified
        → Requested epoll (λ a. Memᴰ a (register_3 ∷ [])) e.token)
run-Requested_example = run-Requested run_to_notified

-- The loop is dropped while the socket is registered and the thread waits.
abbrev dropped : System epoll
dropped = record {
  loop = notified_loop;
  phase = Phase.waiting;
  actions = QueuedAction.shutdown_event_loop ∷ [];
  calls = [];
}

abbrev dropped_drains : System epoll
dropped_drains = record {
  loop = notified_loop;
  phase = Phase.draining;
  actions = QueuedAction.shutdown_event_loop ∷ [];
  calls = [];
}

waits_once : Steps 1 dropped dropped_drains
unfolding on_wait
waits_once = Steps.then Steps.stay (Step.wait (err 0) [] refl)

the_drop : drop_epoll_loop epoll (some []) ≡ some dropped.actions
unfolding drop_epoll_loop add
the_drop = refl

drop-stops_example :
    (1 ≤ 4)
    × ((dropped_drains.phase ≡ Phase.stopped)
        ⊎ ((u : System epoll) × (step : Step dropped_drains u) × (is_of_thread step ≡ true)))
drop-stops_example = drop-stops {s = dropped} {t = dropped_drains} [] the_drop waits_once

-- Socket 3 is registered through its `UdtSock`.
abbrev sock_3 : Inner library
sock_3 = record {
  stream = 3;
  read_buffer = [];
  read_len = 0;
  write_queue = [];
  current_write = none;
}

abbrev waiting_3 : List (QueuedAction epoll)
waiting_3 = QueuedAction.register 3 30 (event_set epoll both_ways) ∷ []

asked_3 :
    register epoll (record { inner = some sock_3 }) (some []) 30 both_ways ≡ (ok tt, some waiting_3)
unfolding register inner_register handle_register queue_action add
asked_3 = refl

register-token_of_example :
    let after = (process epoll waiting_3 empty_loop).1 in
    (◌≡◌ {A = Result IoError (Unit {0})} (ok tt) (ok tt))
    × (epoll-WatchLaws.watched after.state 3 ≡ some 13)
    × ((on_wait epoll (ok (3 ∷ [], [])) after).notified
        ≡ after.notified ++ (record { readiness = Readiness.readable; token = 30 } ∷ []))
    × ((on_wait epoll (ok ([], 3 ∷ [])) after).notified
        ≡ after.notified ++ (record { readiness = Readiness.writable; token = 30 } ∷ []))
register-token_of_example =
    register-token_of epoll epoll-WatchLaws sock_3 [] waiting_3 waiting_3 30 both_ways (ok tt)
      empty_loop (λ b m about. elim m [ ]) (λ m. elim m [ ]) asked_3 (refl, λ a. (λ m. m, λ m. m))
