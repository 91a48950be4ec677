-- ===== src/Udt/EventLoop/Process.antt =====
-- src/udt/udt_event_loop.rs, the `for` loop of `event_loop_impl`: what a drained set does to the
-- token map and to the epoll, for each order in which the set can be iterated.
use mathlib.Core.Path.{◌≡◌, refl, sym, ap, subst, ◌∙◌}
use mathlib.Core.Logic.{◌≢◌, ◌↔◌, inl, inr}
use socket_collection.Base.{List, [], ◌∷◌, length, Option, none, some, ok}
use mathlib.Core.List.{Memᴰ}
use socket_collection.Base.Dict.{
  add, add_new, Memᴰ-swap, get, get-insert_self, get-insert_other, get-remove_self,
  get-remove_other, find, Memᴰ-head,
}
use socket_collection.Env.{Crates}
use socket_collection.Udt.Api.{UdtApi}
use socket_collection.Udt.EventLoop.{
  Token, Ready, EpollApi, QueuedAction, EventLoop, same_action, event_set, handle_register,
  handle_deregister, queue_action, on_register, on_deregister, process,
}

module _ {x : Crates} {api : UdtApi x} {epoll : EpollApi api} where
  -- The action is about the socket.
  abbrev pub Concerns : api.UdtSocket → QueuedAction epoll → Type 0
  Concerns sock (QueuedAction.register other token events) = other ≡ sock
  Concerns sock (QueuedAction.deregister other) = other ≡ sock
  Concerns sock QueuedAction.shutdown_event_loop = ⊥

  -- The token that the action's socket has after it.
  abbrev pub token_after : QueuedAction epoll → Option Token
  token_after (QueuedAction.register sock token events) = some token
  token_after (QueuedAction.deregister sock) = none
  token_after QueuedAction.shutdown_event_loop = none

module _ {x : Crates} {api : UdtApi x} (epoll : EpollApi api) where
  -- The token of a socket in the loop's map.
  abbrev pub token_of : api.UdtSocket → EventLoop epoll → Option Token
  token_of sock s = get epoll.same_socket sock s.token_map

  -- One action, as the loop carries it out.
  abbrev pub carry_out : QueuedAction epoll → EventLoop epoll → EventLoop epoll
  carry_out (QueuedAction.register sock token events) s = on_register epoll sock token events s
  carry_out (QueuedAction.deregister sock) s = on_deregister epoll sock s
  carry_out QueuedAction.shutdown_event_loop s = s

  process-carry_out :
      (a : QueuedAction epoll) (actions : List (QueuedAction epoll)) (s : EventLoop epoll)
      → a ≢ QueuedAction.shutdown_event_loop
      → process epoll (a ∷ actions) s ≡ process epoll actions (carry_out a s)
  unfolding process
  process-carry_out (QueuedAction.register sock token events) actions s h = refl
  process-carry_out (QueuedAction.deregister sock) actions s h = refl
  process-carry_out QueuedAction.shutdown_event_loop actions s h = absurd (h refl)

  token_of-carry_out :
      (sock : api.UdtSocket) (a : QueuedAction epoll) (s : EventLoop epoll)
      → Concerns sock a
      → token_of sock (carry_out a s) ≡ token_after a
  unfolding on_register on_deregister
  token_of-carry_out sock (QueuedAction.register other token events) s c =
      ap (λ k. get epoll.same_socket k (on_register epoll other token events s).token_map) (sym c)
      ∙ get-insert_self epoll.same_socket other token s.token_map
  token_of-carry_out sock (QueuedAction.deregister other) s c =
      ap (λ k. get epoll.same_socket k (on_deregister epoll other s).token_map) (sym c)
      ∙ get-remove_self epoll.same_socket other s.token_map
  token_of-carry_out sock QueuedAction.shutdown_event_loop s c = absurd c

  -- What the library promises of an epoll whose calls it does not refuse: a socket that it does
  -- not watch is watched for the events that it is added with, and no longer once it is removed,
  -- and calls for one socket do not matter to another.
  pub record WatchLaws : Type 0 where
    pub watched : epoll.Epoll → api.UdtSocket → Option epoll.EpollEvents
    pub added :
        (e : epoll.Epoll) (sock : api.UdtSocket) (events : epoll.EpollEvents)
        → watched e sock ≡ none
        → watched (epoll.add_usock e sock events).1 sock ≡ some events
    pub added_other :
        (e : epoll.Epoll) (other sock : api.UdtSocket) (events : epoll.EpollEvents)
        → other ≢ sock
        → watched (epoll.add_usock e other events).1 sock ≡ watched e sock
    pub removed :
        (e : epoll.Epoll) (sock : api.UdtSocket) → watched (epoll.remove_usock e sock).1 sock ≡ none
    pub removed_other :
        (e : epoll.Epoll) (other sock : api.UdtSocket)
        → other ≢ sock
        → watched (epoll.remove_usock e other).1 sock ≡ watched e sock

  -- Something about a socket in the loop's state that only actions on the socket change, each to a
  -- value of its own.
  pub record Observes {V : Type 0} (sock : api.UdtSocket) (observe : EventLoop epoll → V)
      (after : QueuedAction epoll → V) : Type 0 where
    pub other :
        (a : QueuedAction epoll) (s : EventLoop epoll)
        → ¬ Concerns sock a
        → observe (carry_out a s) ≡ observe s
    pub own :
        (a : QueuedAction epoll) (s : EventLoop epoll)
        → Concerns sock a
        → observe (carry_out a s) ≡ after a

  module _ {V : Type 0} {sock : api.UdtSocket} {observe : EventLoop epoll → V}
      {after : QueuedAction epoll → V} (o : Observes sock observe after) where
    process-untouched :
        (actions : List (QueuedAction epoll)) (s : EventLoop epoll)
        → ((a : QueuedAction epoll) → Memᴰ a actions → ¬ Concerns sock a)
        → observe (process epoll actions s).1 ≡ observe s
    unfolding process
    process-untouched [] s h = refl
    process-untouched (QueuedAction.register other token events ∷ actions) s h =
        let a : QueuedAction epoll = QueuedAction.register other token events in
        process-untouched actions (carry_out a s) (λ b m. h b (Memᴰ.tail m))
        ∙ o.other a s (h a (Memᴰ.head refl))
    process-untouched (QueuedAction.deregister other ∷ actions) s h =
        let a : QueuedAction epoll = QueuedAction.deregister other in
        process-untouched actions (carry_out a s) (λ b m. h b (Memᴰ.tail m))
        ∙ o.other a s (h a (Memᴰ.head refl))
    process-untouched (QueuedAction.shutdown_event_loop ∷ actions) s h = refl

    -- When all the drained actions on a socket are one action and none of the drained ones ends
    -- the loop, what is observed is as after that action, wherever the action stands.
    pub process-settled :
        (a : QueuedAction epoll) (actions : List (QueuedAction epoll)) (s : EventLoop epoll)
        → Concerns sock a
        → Memᴰ a actions
        → ((b : QueuedAction epoll) → Memᴰ b actions → Concerns sock b → b ≡ a)
        → ¬ Memᴰ QueuedAction.shutdown_event_loop actions
        → observe (process epoll actions s).1 ≡ after a
    process-settled a [] s c m only h = elim m [ ]
    process-settled a (b ∷ actions) s c m only h =
        ap (λ r. observe r.1) (process-carry_out b actions s (λ e. h (Memᴰ.head (sym e))))
        ∙ elim (find (same_action epoll) a actions) [
          | inl later ↦
              process-settled a actions (carry_out b s) c later (λ k i. only k (Memᴰ.tail i))
                (λ i. h (Memᴰ.tail i))
          | inr last ↦
              process-untouched actions (carry_out b s)
                (λ k i about. last (subst (λ j. Memᴰ j actions) (only k (Memᴰ.tail i) about) i))
              ∙ ap (λ j. observe (carry_out j s)) (sym (Memᴰ-head a b actions m last))
              ∙ o.own a s c
        ]

  token_of-other :
      (sock : api.UdtSocket) (a : QueuedAction epoll) (s : EventLoop epoll)
      → ¬ Concerns sock a
      → token_of sock (carry_out a s) ≡ token_of sock s
  unfolding on_register on_deregister
  token_of-other sock (QueuedAction.register other token events) s n =
      get-insert_other epoll.same_socket other sock token s.token_map n
  token_of-other sock (QueuedAction.deregister other) s n =
      get-remove_other epoll.same_socket other sock s.token_map n
  token_of-other sock QueuedAction.shutdown_event_loop s n = refl

  pub token_of-Observes : (sock : api.UdtSocket) → Observes sock (token_of sock) token_after
  token_of-Observes sock = record { other = token_of-other sock; own = token_of-carry_out sock }

  -- The events that the socket is watched for after an action on it.
  abbrev pub events_after : QueuedAction epoll → Option epoll.EpollEvents
  events_after (QueuedAction.register sock token events) = some events
  events_after (QueuedAction.deregister sock) = none
  events_after QueuedAction.shutdown_event_loop = none

  module _ (laws : WatchLaws) where
    abbrev watched_in : api.UdtSocket → EventLoop epoll → Option epoll.EpollEvents
    watched_in sock s = laws.watched s.state sock

    watched-other :
        (sock : api.UdtSocket) (a : QueuedAction epoll) (s : EventLoop epoll)
        → ¬ Concerns sock a
        → watched_in sock (carry_out a s) ≡ watched_in sock s
    unfolding on_register on_deregister
    watched-other sock (QueuedAction.register other token events) s n =
        laws.added_other (epoll.remove_usock s.state other).1 other sock events n
        ∙ laws.removed_other s.state other sock n
    watched-other sock (QueuedAction.deregister other) s n = laws.removed_other s.state other sock n
    watched-other sock QueuedAction.shutdown_event_loop s n = refl

    watched-own :
        (sock : api.UdtSocket) (a : QueuedAction epoll) (s : EventLoop epoll)
        → Concerns sock a
        → watched_in sock (carry_out a s) ≡ events_after a
    unfolding on_register on_deregister
    watched-own sock (QueuedAction.register other token events) s c =
        ap (λ k. watched_in k (carry_out (QueuedAction.register other token events) s)) (sym c)
        ∙ laws.added (epoll.remove_usock s.state other).1 other events (laws.removed s.state other)
    watched-own sock (QueuedAction.deregister other) s c =
        ap (λ k. watched_in k (carry_out (QueuedAction.deregister other) s)) (sym c)
        ∙ laws.removed s.state other
    watched-own sock QueuedAction.shutdown_event_loop s c = absurd c

    pub watched-Observes : (sock : api.UdtSocket) → Observes sock (watched_in sock) events_after
    watched-Observes sock = record { other = watched-other sock; own = watched-own sock }

  -- The order is one in which the set can be iterated.
  abbrev pub Iterates : List (QueuedAction epoll) → List (QueuedAction epoll) → Type 0
  Iterates order set =
      (length order ≡ length set) × ((a : QueuedAction epoll) → Memᴰ a order ↔ Memᴰ a set)

  -- A socket that is registered and then deregistered before the loop drains the queue has both
  -- actions in the set: iterated in the order of the calls the loop forgets the socket's token, in
  -- the other order, which the set allows too, the token stays.
  pub register-then-deregister :
      (sock : api.UdtSocket) (token : Token) (interest : Ready) (s : EventLoop epoll)
      → (order : List (QueuedAction epoll)) × (other : List (QueuedAction epoll))
        × (handle_deregister epoll (handle_register epoll (some []) sock token interest).1 sock
            ≡ (ok tt, some order))
        × Iterates other order
        × (token_of sock (process epoll order s).1 ≡ none)
        × (token_of sock (process epoll other s).1 ≡ some token)
  unfolding handle_register handle_deregister queue_action process add
  register-then-deregister sock token interest s =
      let r : QueuedAction epoll = QueuedAction.register sock token (event_set epoll interest) in
      let d : QueuedAction epoll = QueuedAction.deregister sock in
      (
        r ∷ d ∷ [],
        d ∷ r ∷ [],
        ap (λ set. (ok tt, some set)) (add_new (same_action epoll) d r (λ e. cc)),
        (refl, λ a. (Memᴰ-swap d r [], Memᴰ-swap r d [])),
        token_of-carry_out sock d (carry_out r s) refl,
        token_of-carry_out sock r (carry_out d s) refl,
      )
