-- ===== src/Udt/Sock/Registration.antt =====
-- `Evented for UdtSock` of src/udt/udt_sock.rs together with the event loop of
-- src/udt/udt_event_loop.rs.
use socket_collection.Base.{
  ◌≡◌, refl, sym, ap, subst, ◌∙◌, Bool, true, false, List, [], ◌∷◌, ◌++◌, some, Result, ok, ◌⊎◌,
  inl, inr,
}
use mathlib.Core.Option.{some-injective}
use mathlib.Core.List.{Memᴰ}
use socket_collection.Base.Dict.{add, Memᴰ-add_self, of_Memᴰ-add}
use socket_collection.Env.{Crates}
use socket_collection.Error.{IoError}
use socket_collection.Udt.Api.{UdtApi}
use socket_collection.Udt.EventLoop.{
  Token, Ready, EpollApi, QueuedAction, EventLoop, Readiness, same_action, event_set, process,
  queue_action, on_wait, notify_all, notify, handle_register,
}
use socket_collection.Udt.EventLoop.Process.{
  Concerns, token_of, Iterates, WatchLaws, token_of-Observes, watched-Observes, process-settled,
}
use socket_collection.Udt.Inner.{Inner}
use socket_collection.Udt.Sock.{register, inner_register}

module _ {x : Crates} {api : UdtApi x} (epoll : EpollApi api) where
  -- The actions on the socket that wait, if any, are this registration.
  abbrev pub OnlyThis : api.UdtSocket → QueuedAction epoll → List (QueuedAction epoll) → Type 0
  OnlyThis sock a actions = (b : QueuedAction epoll) → Memᴰ b actions → Concerns sock b → b ≡ a

  -- The specification: errors are always asked for, the other events as the interest says.
  abbrev pub wanted : Bool → Bool → epoll.EpollEvents
  wanted false false = epoll.with_events epoll.empty epoll.udt_epoll_err
  wanted true false =
      epoll.with_events (epoll.with_events epoll.empty epoll.udt_epoll_in) epoll.udt_epoll_err
  wanted false true =
      epoll.with_events (epoll.with_events epoll.empty epoll.udt_epoll_out) epoll.udt_epoll_err
  wanted true true =
      epoll.with_events
        (epoll.with_events (epoll.with_events epoll.empty epoll.udt_epoll_in) epoll.udt_epoll_out)
        epoll.udt_epoll_err

  event_set-wanted :
      (is_readable is_writable : Bool)
      → event_set epoll (record { is_readable = is_readable; is_writable = is_writable })
        ≡ wanted is_readable is_writable
  event_set-wanted false false = refl
  event_set-wanted false true = refl
  event_set-wanted true false = refl
  event_set-wanted true true = refl

  -- From the call to the loop, over an epoll that refuses no call: `register` of an initialised
  -- socket, while the thread runs and no other action on the socket and no shutdown waits in the
  -- set, succeeds. Once the thread has gone through the set that the call leaves, in whatever
  -- order, the epoll watches the socket for errors and for just what the interest asks for, and
  -- when the library then reports the socket alone as readable, or as writable, the loop makes one
  -- more notification, of that event with the token that was given.
  pub register-token_of :
      (laws : WatchLaws epoll) (s : Inner api) (actions queued order : List (QueuedAction epoll))
      (token : Token) (interest : Ready) (result : Result IoError (Unit {0}))
      (loop : EventLoop epoll)
      → OnlyThis s.stream (QueuedAction.register s.stream token (event_set epoll interest)) actions
      → ¬ Memᴰ QueuedAction.shutdown_event_loop actions
      → register epoll (record { inner = some s }) (some actions) token interest
        ≡ (result, some queued)
      → Iterates epoll order queued
      → let after = (process epoll order loop).1 in
        (result ≡ ok tt)
        × (laws.watched after.state s.stream
            ≡ some (wanted interest.is_readable interest.is_writable))
        × ((on_wait epoll (ok (s.stream ∷ [], [])) after).notified
            ≡ after.notified ++ (record { readiness = Readiness.readable; token = token } ∷ []))
        × ((on_wait epoll (ok ([], s.stream ∷ [])) after).notified
            ≡ after.notified ++ (record { readiness = Readiness.writable; token = token } ∷ []))
  unfolding register inner_register handle_register queue_action on_wait notify_all notify
  register-token_of laws s actions queued order token interest result loop only no_shutdown h
        iterates =
      let a : QueuedAction epoll =
        QueuedAction.register s.stream token (event_set epoll interest) in
      let e : queued ≡ add (same_action epoll) a actions =
        sym (some-injective _ _ (ap (λ r. r.1) h)) in
      let entry : (b : QueuedAction epoll) → Memᴰ b order → (b ≡ a) ⊎ Memᴰ b actions = λ b m.
        of_Memᴰ-add (same_action epoll) a actions (subst (λ l. Memᴰ b l) e ((iterates.1 b).0 m)) in
      let there : Memᴰ a order =
        (iterates.1 a).1
          (subst (λ l. Memᴰ a l) (sym e) (Memᴰ-add_self (same_action epoll) a actions)) in
      let alone : (b : QueuedAction epoll) → Memᴰ b order → Concerns s.stream b → b ≡ a =
        λ b m about. elim (entry b m) [ inl new ↦ new | inr old ↦ only b old about ] in
      let goes_on : ¬ Memᴰ QueuedAction.shutdown_event_loop order = λ m.
        elim (entry QueuedAction.shutdown_event_loop m) [
          | inl new ↦ absurd cc
          | inr old ↦ no_shutdown old
        ] in
      let known : token_of epoll s.stream (process epoll order loop).1 ≡ some token =
        process-settled epoll (token_of-Observes epoll s.stream) a order loop refl there alone
          goes_on in
      (
        sym (ap (λ r. r.0) h),
        process-settled epoll (watched-Observes epoll laws s.stream) a order loop refl there alone
              goes_on
            ∙ ap some (event_set-wanted interest.is_readable interest.is_writable),
        ap (λ t. (notify epoll Readiness.readable t (process epoll order loop).1).notified) known,
        ap (λ t. (notify epoll Readiness.writable t (process epoll order loop).1).notified) known,
      )
