-- ===== src/Udt/EventLoop/Tokens.antt =====
-- src/udt/udt_event_loop.rs: the token map of the loop, action by action.
use socket_collection.Base.{
  ◌≡◌, refl, sym, ap, ◌∙◌, if◌then◌else◌, Bool, true, false, List, [], ◌∷◌, ◌++◌, Option, none,
  some, Result, ok, err,
}
use mathlib.Core.Logic.{◌≢◌, ite, if_pos, if_neg}
use socket_collection.Base.Dict.{
  get, get-insert_self, get-insert_other, get-remove_self, get-remove_other,
}
use socket_collection.Env.{Crates}
use socket_collection.Udt.Api.{UdtApi}
use socket_collection.Udt.EventLoop.{
  Token, EpollApi, QueuedAction, EventLoop, Readiness, notify, notify_all, on_wait, on_register,
  on_deregister, process,
}
use socket_collection.Udt.EventLoop.Process.{token_of}
use socket_collection.Udt.EventLoop.System.{Phase, System, after_process, Step, done_by}

module _ {x : Crates} {api : UdtApi x} (epoll : EpollApi api) (sock : api.UdtSocket) where
  -- The specification: the socket's token after these actions, each carried out, where `token` was
  -- the socket's token before. A registration of the socket sets it, a deregistration clears it,
  -- and actions on other sockets do not matter.
  abbrev pub replayed : Option Token → List (QueuedAction epoll) → Option Token
  replayed token [] = token
  replayed token (QueuedAction.register other new events ∷ actions) =
      replayed (ite (epoll.same_socket other sock) (some new) token) actions
  replayed token (QueuedAction.deregister other ∷ actions) =
      replayed (ite (epoll.same_socket other sock) none token) actions
  replayed token (QueuedAction.shutdown_event_loop ∷ actions) = replayed token actions

  replayed-append :
      (token : Option Token) (l l' : List (QueuedAction epoll))
      → replayed token (l ++ l') ≡ replayed (replayed token l) l'
  replayed-append token [] l' = refl
  replayed-append token (QueuedAction.register other new events ∷ l) l' =
      replayed-append (ite (epoll.same_socket other sock) (some new) token) l l'
  replayed-append token (QueuedAction.deregister other ∷ l) l' =
      replayed-append (ite (epoll.same_socket other sock) none token) l l'
  replayed-append token (QueuedAction.shutdown_event_loop ∷ l) l' = replayed-append token l l'

  token_of-on_register :
      (other : api.UdtSocket) (token : Token) (events : epoll.EpollEvents) (s : EventLoop epoll)
      → token_of epoll sock (on_register epoll other token events s)
        ≡ ite (epoll.same_socket other sock) (some token) (token_of epoll sock s)
  unfolding on_register
  token_of-on_register other token events s = elim (epoll.same_socket other sock) [
    | yes e ↦
        rw (if_pos (epoll.same_socket other sock) e, e)
          (get-insert_self epoll.same_socket sock token s.token_map)
    | no d ↦
        rw (if_neg (epoll.same_socket other sock) d)
          (get-insert_other epoll.same_socket other sock token s.token_map d)
  ]

  token_of-on_deregister :
      (other : api.UdtSocket) (s : EventLoop epoll)
      → token_of epoll sock (on_deregister epoll other s)
        ≡ ite (epoll.same_socket other sock) none (token_of epoll sock s)
  unfolding on_deregister
  token_of-on_deregister other s = elim (epoll.same_socket other sock) [
    | yes e ↦
        rw (if_pos (epoll.same_socket other sock) e, e)
          (get-remove_self epoll.same_socket sock s.token_map)
    | no d ↦
        rw (if_neg (epoll.same_socket other sock) d)
          (get-remove_other epoll.same_socket other sock s.token_map d)
  ]

  -- Unless it ends the loop, the `for` loop carries out every action, in order.
  process-replayed :
      (actions : List (QueuedAction epoll)) (s : EventLoop epoll)
      → (process epoll actions s).0 ≡ true
      → token_of epoll sock (process epoll actions s).1 ≡ replayed (token_of epoll sock s) actions
  unfolding process
  process-replayed [] s h = refl
  process-replayed (QueuedAction.register other token events ∷ actions) s h =
      process-replayed actions (on_register epoll other token events s) h
      ∙ ap (λ t. replayed t actions) (token_of-on_register other token events s)
  process-replayed (QueuedAction.deregister other ∷ actions) s h =
      process-replayed actions (on_deregister epoll other s) h
      ∙ ap (λ t. replayed t actions) (token_of-on_deregister other s)
  process-replayed (QueuedAction.shutdown_event_loop ∷ actions) s h = absurd cc

module _ {x : Crates} {api : UdtApi x} (epoll : EpollApi api) where
  notify-token_map :
      (readiness : Readiness) (token : Option Token) (s : EventLoop epoll)
      → (notify epoll readiness token s).token_map ≡ s.token_map
  unfolding notify
  notify-token_map readiness none s = refl
  notify-token_map readiness (some token) s = refl

  notify_all-token_map :
      (readiness : Readiness) (socks : List api.UdtSocket) (s : EventLoop epoll)
      → (notify_all epoll readiness socks s).token_map ≡ s.token_map
  unfolding notify_all
  notify_all-token_map readiness [] s = refl
  notify_all-token_map readiness (sock ∷ socks) s =
      let token = get epoll.same_socket sock s.token_map in
      notify_all-token_map readiness socks (notify epoll readiness token s)
      ∙ notify-token_map readiness token s

  on_wait-token_map :
      (answer : Result api.Failure (List api.UdtSocket × List api.UdtSocket)) (s : EventLoop epoll)
      → (on_wait epoll answer s).token_map ≡ s.token_map
  unfolding on_wait
  on_wait-token_map (ok (read_ready, write_ready)) s =
      notify_all-token_map Readiness.writable write_ready
        (notify_all epoll Readiness.readable read_ready s)
      ∙ notify_all-token_map Readiness.readable read_ready s
  on_wait-token_map (err e) s = refl

module _ {x : Crates} {api : UdtApi x} {epoll : EpollApi api} (sock : api.UdtSocket) where
  handled-replayed :
      (goes_on : Bool) (order : List (QueuedAction epoll)) (s : EventLoop epoll)
      → (process epoll order s).0 ≡ goes_on
      → after_process {epoll = epoll} goes_on ≢ Phase.stopped
      → token_of epoll sock (process epoll order s).1
        ≡ replayed epoll sock (token_of epoll sock s) (if goes_on then order else [])
  handled-replayed true order s e h = process-replayed epoll sock order s e
  handled-replayed false order s e h = absurd (h refl)

  step-replayed :
      {s t : System epoll} (step : Step s t)
      → t.phase ≢ Phase.stopped
      → token_of epoll sock t.loop ≡ replayed epoll sock (token_of epoll sock s.loop) (done_by step)
  step-replayed (Step.upgrade a alive) h = refl
  step-replayed (Step.insert before a after e) h = refl
  step-replayed (Step.wait {s} answer state e) h =
      ap (get epoll.same_socket sock)
        (on_wait-token_map epoll answer (record s.loop { state = state }))
  step-replayed (Step.drain order e i) h = refl
  step-replayed (Step.handle {s} order e) h =
      handled-replayed (process epoll order s.loop).0 order s.loop refl h

  -- While the thread runs, the socket's token is what the actions make of it that the thread has
  -- gone through.
  pub next-replayed :
      (done : List (QueuedAction epoll)) {s t : System epoll} (step : Step s t)
      → t.phase ≢ Phase.stopped
      → token_of epoll sock s.loop ≡ replayed epoll sock none done
      → token_of epoll sock t.loop ≡ replayed epoll sock none (done ++ done_by step)
  next-replayed done step h ih =
      step-replayed step h
      ∙ ap (λ t. replayed epoll sock t (done_by step)) ih
      ∙ sym (replayed-append epoll sock none done (done_by step))
