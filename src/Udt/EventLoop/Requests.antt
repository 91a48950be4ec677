-- ===== src/Udt/EventLoop/Requests.antt =====
-- src/udt/udt_event_loop.rs: every token that the loop keeps or notifies comes from a call.
use socket_collection.Base.{
  ◌≡◌, refl, sym, ap, subst, ◌∙◌, List, [], ◌∷◌, Option, none, some, Result, ok, err, inl, inr,
}
use mathlib.Core.Option.{some-injective, none-ne-some}
use mathlib.Core.List.{Memᴰ}
use mathlib.Core.List.Memᴰ
use socket_collection.Base.Dict.{
  get, get-insert_self, get-insert_other, get-remove_self, get-remove_other,
}
use socket_collection.Env.{Crates}
use socket_collection.Udt.Api.{UdtApi}
use socket_collection.Udt.EventLoop.{
  Token, Event, Readiness, EpollApi, QueuedAction, EventLoop, on_register, on_deregister, process,
  notify, notify_all, on_wait,
}
use socket_collection.Udt.EventLoop.Process.{token_of}

module _ {x : Crates} {api : UdtApi x} (epoll : EpollApi api)
    (P : QueuedAction epoll → Type 0) where
  -- Some registration with the token is one of the requests `P`, for a socket or for some socket.
  abbrev pub Registers : api.UdtSocket → Token → Type 0
  Registers sock token = (events : epoll.EpollEvents) × P (QueuedAction.register sock token events)

  abbrev pub Requested : Token → Type 0
  Requested token = (sock : api.UdtSocket) × Registers sock token

  abbrev pub AllIn : List (QueuedAction epoll) → Type 0
  AllIn actions = (a : QueuedAction epoll) → Memᴰ a actions → P a

  abbrev pub Keeps : EventLoop epoll → Type 0
  Keeps s =
      (sock : api.UdtSocket) (token : Token)
      → token_of epoll sock s ≡ some token
      → Registers sock token

  abbrev pub Notifies : EventLoop epoll → Type 0
  Notifies s = (e : Event) → Memᴰ e s.notified → Requested e.token

module _ {x : Crates} {api : UdtApi x} {epoll : EpollApi api}
    (P : QueuedAction epoll → Type 0) where
  on_register-Keeps :
      (sock : api.UdtSocket) (token : Token) (events : epoll.EpollEvents) (s : EventLoop epoll)
      → P (QueuedAction.register sock token events)
      → Keeps epoll P s
      → Keeps epoll P (on_register epoll sock token events s)
  unfolding on_register
  on_register-Keeps sock token events s p keeps other t found =
      elim (epoll.same_socket sock other) [
        | yes e ↦
            subst (λ k. Registers epoll P k t) e
              (
                events,
                subst (λ v. P (QueuedAction.register sock v events))
                    (some-injective token t (
                      sym (get-insert_self epoll.same_socket sock token s.token_map)
                      ∙ ap
                          (λ k.
                            get epoll.same_socket k
                              (on_register epoll sock token events s).token_map)
                          e
                      ∙ found))
                    p,
              )
        | no d ↦
            keeps other t
              (sym (get-insert_other epoll.same_socket sock other token s.token_map d) ∙ found)
      ]

  on_deregister-Keeps :
      (sock : api.UdtSocket) (s : EventLoop epoll)
      → Keeps epoll P s
      → Keeps epoll P (on_deregister epoll sock s)
  unfolding on_deregister
  on_deregister-Keeps sock s keeps other t found = elim (epoll.same_socket sock other) [
    | yes e ↦ absurd (
        none-ne-some t (
          sym (get-remove_self epoll.same_socket sock s.token_map)
          ∙ ap (λ k. get epoll.same_socket k (on_deregister epoll sock s).token_map) e
          ∙ found))
    | no d ↦
        keeps other t (sym (get-remove_other epoll.same_socket sock other s.token_map d) ∙ found)
  ]

  pub process-Keeps :
      (actions : List (QueuedAction epoll)) (s : EventLoop epoll)
      → AllIn epoll P actions
      → Keeps epoll P s
      → Keeps epoll P (process epoll actions s).1
  unfolding process
  process-Keeps [] s all keeps = keeps
  process-Keeps (QueuedAction.register sock token events ∷ actions) s all keeps =
      process-Keeps actions (on_register epoll sock token events s) (λ a m. all a (Memᴰ.tail m))
        (on_register-Keeps sock token events s
          (all (QueuedAction.register sock token events) (Memᴰ.head refl)) keeps)
  process-Keeps (QueuedAction.deregister sock ∷ actions) s all keeps =
      process-Keeps actions (on_deregister epoll sock s) (λ a m. all a (Memᴰ.tail m))
        (on_deregister-Keeps sock s keeps)
  process-Keeps (QueuedAction.shutdown_event_loop ∷ actions) s all keeps = keeps

  -- The `for` loop over the actions notifies nothing.
  pub process-notified :
      (actions : List (QueuedAction epoll)) (s : EventLoop epoll)
      → (process epoll actions s).1.notified ≡ s.notified
  unfolding process on_register on_deregister
  process-notified [] s = refl
  process-notified (QueuedAction.register sock token events ∷ actions) s =
      process-notified actions (on_register epoll sock token events s)
  process-notified (QueuedAction.deregister sock ∷ actions) s =
      process-notified actions (on_deregister epoll sock s)
  process-notified (QueuedAction.shutdown_event_loop ∷ actions) s = refl

  abbrev pub Both : EventLoop epoll → Type 0
  Both s = Keeps epoll P s × Notifies epoll P s

  notify-Both :
      (readiness : Readiness) (token : Option Token) (s : EventLoop epoll)
      → ((t : Token) → token ≡ some t → Requested epoll P t)
      → Both s
      → Both (notify epoll readiness token s)
  unfolding notify
  notify-Both readiness none s h both = both
  notify-Both readiness (some t) s h (keeps, notifies) = (
    keeps,
    λ e m. elim (Memᴰ.append_cases s.notified m) [
      | inl old ↦ notifies e old
      | inr new ↦ subst (λ k. Requested epoll P k.token) (sym (Memᴰ.eq_of_singleton new)) (h t refl)
    ],
  )

  notify_all-Both :
      (readiness : Readiness) (socks : List api.UdtSocket) (s : EventLoop epoll)
      → Both s
      → Both (notify_all epoll readiness socks s)
  unfolding notify_all
  notify_all-Both readiness [] s h = h
  notify_all-Both readiness (sock ∷ socks) s (keeps, notifies) =
      let token = get epoll.same_socket sock s.token_map in
      notify_all-Both readiness socks (notify epoll readiness token s)
        (notify-Both readiness token s (λ t e. (sock, keeps sock t e)) (keeps, notifies))

  pub on_wait-Both :
      (answer : Result api.Failure (List api.UdtSocket × List api.UdtSocket)) (s : EventLoop epoll)
      → Both s
      → Both (on_wait epoll answer s)
  unfolding on_wait
  on_wait-Both (ok (read_ready, write_ready)) s h =
      notify_all-Both Readiness.writable write_ready
        (notify_all epoll Readiness.readable read_ready s)
        (notify_all-Both Readiness.readable read_ready s h)
  on_wait-Both (err e) s h = h

  pub process-Both :
      (actions : List (QueuedAction epoll)) (s : EventLoop epoll)
      → AllIn epoll P actions
      → Both s
      → Both (process epoll actions s).1
  process-Both actions s all (keeps, notifies) = (
    process-Keeps actions s all keeps,
    λ e m. notifies e (subst (λ l. Memᴰ e l) (process-notified actions s) m),
  )
