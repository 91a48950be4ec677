-- ===== src/Udt/EventLoop.antt =====
-- src/udt/udt_event_loop.rs: the handles that queue actions, and the loop that carries them out.
pub mod Process
pub mod System
pub mod Requests
pub mod Runs
pub mod Tokens
pub mod Progress
pub mod Shutdown
use socket_collection.Base.{
  ℕ, Bool, true, false, List, [], ◌∷◌, ◌++◌, Option, none, some, Result, ok, err, if◌then◌else◌,
}
use native.Mathlib.Decide.{ℕ_discrete}
use socket_collection.Base.Dict.{get, remove, insert, add}
use socket_collection.Env.{Crates}
use socket_collection.Error.{Res, no_udt_epoll}
use socket_collection.Udt.Api.{UdtApi}

-- `mio::Token`, `mio::Ready` as far as it is read, and `mio::Event` as it is made here.
abbrev pub Token : Type 0
Token = ℕ

pub record Ready : Type 0 where
  pub is_readable : Bool
  pub is_writable : Bool

pub data Readiness : Type 0 where
  readable writable : Readiness

pub record Event : Type 0 where
  pub readiness : Readiness
  pub token : Token

-- The epoll of the UDT library. Sockets and sets of events are keys, so they can be compared.
pub record EpollApi {x : Crates} (api : UdtApi x) : Type 1 where
  pub Epoll : Type 0
  pub EpollEvents : Type 0
  pub same_socket : Discrete api.UdtSocket
  pub same_events : Discrete EpollEvents
  -- `EpollEvents::empty()`, `insert`, and the three flags.
  pub empty : EpollEvents
  pub with_events : EpollEvents → EpollEvents → EpollEvents
  pub udt_epoll_in : EpollEvents
  pub udt_epoll_out : EpollEvents
  pub udt_epoll_err : EpollEvents
  pub add_usock : Epoll → api.UdtSocket → EpollEvents → Result api.Failure (Unit {0}) × Epoll
  pub remove_usock : Epoll → api.UdtSocket → Result api.Failure (Unit {0}) × Epoll

module _ {x : Crates} {api : UdtApi x} (epoll : EpollApi api) where
  pub data QueuedAction : Type 0 where
    register : api.UdtSocket → Token → epoll.EpollEvents → QueuedAction
    deregister : api.UdtSocket → QueuedAction
    shutdown_event_loop : QueuedAction

  -- What the loop thread owns, and the notifications that it has made, in order.
  pub record EventLoop : Type 0 where
    pub state : epoll.Epoll
    pub token_map : List (api.UdtSocket × Token)
    pub notified : List Event

module _ {x : Crates} {api : UdtApi x} (epoll : EpollApi api) where
  -- `#[derive(Eq, PartialEq, Hash)]`.
  pub same_action : Discrete (QueuedAction epoll)
  same_action = hlevel (ℕ_discrete, epoll.same_socket, epoll.same_events)

  -- The event set of `Handle::register`.
  abbrev pub event_set : Ready → epoll.EpollEvents
  event_set interest =
      let e = epoll.empty in
      let e' = if interest.is_readable then epoll.with_events e epoll.udt_epoll_in else e in
      let e'' = if interest.is_writable then epoll.with_events e' epoll.udt_epoll_out else e' in
      epoll.with_events e'' epoll.udt_epoll_err

  -- What a `Weak<Mutex<HashSet<QueuedAction>>>` refers to: nothing once its owners are gone.
  abbrev pub WeakActions : Type 0
  WeakActions = Option (List (QueuedAction epoll))

  -- The `upgrade`, and the `insert` under the lock.
  unfoldable pub queue_action : QueuedAction epoll → WeakActions → Res x (Unit {0}) × WeakActions
  queue_action action none = (err no_udt_epoll, none)
  queue_action action (some actions) = (ok tt, some (add same_action action actions))

  -- `Handle::register` and `Handle::deregister`.
  unfoldable pub handle_register :
      WeakActions → api.UdtSocket → Token → Ready → Res x (Unit {0}) × WeakActions
  unfolding queue_action
  handle_register actions sock token interest =
      queue_action (register sock token (event_set interest)) actions

  pub handle_deregister : WeakActions → api.UdtSocket → Res x (Unit {0}) × WeakActions
  unfolding queue_action
  handle_deregister actions sock = queue_action (deregister sock) actions

  -- `Drop for EpollLoop`.
  unfoldable pub drop_epoll_loop : WeakActions → WeakActions
  unfolding queue_action
  drop_epoll_loop actions = (queue_action shutdown_event_loop actions).1

  -- The body of a loop over the sockets that are ready for one thing, with what the map has.
  unfoldable pub notify : Readiness → Option Token → EventLoop epoll → EventLoop epoll
  notify readiness (some token) s = record s {
    notified = s.notified ++ (record { readiness = readiness; token = token } ∷ []);
  }
  notify readiness none s = s

  unfoldable pub notify_all : Readiness → List api.UdtSocket → EventLoop epoll → EventLoop epoll
  unfolding notify
  notify_all readiness [] s = s
  notify_all readiness (sock ∷ socks) s =
      notify_all readiness socks (notify readiness (get epoll.same_socket sock s.token_map) s)

  -- What the loop does with the answer of `epoll.wait`; an error is only logged.
  unfoldable pub on_wait :
      Result api.Failure (List api.UdtSocket × List api.UdtSocket)
      → EventLoop epoll
      → EventLoop epoll
  unfolding notify_all
  on_wait (ok (read_ready, write_ready)) s =
      notify_all writable write_ready (notify_all readable read_ready s)
  on_wait (err e) s = s

  -- The two branches that change the token map; errors of the library are only logged.
  unfoldable pub on_register :
      api.UdtSocket → Token → epoll.EpollEvents → EventLoop epoll → EventLoop epoll
  on_register sock token events s =
      let removed = (epoll.remove_usock s.state sock).1 in
      record s {
        state = (epoll.add_usock removed sock events).1;
        token_map = insert epoll.same_socket sock token s.token_map;
      }

  pub on_deregister : api.UdtSocket → EventLoop epoll → EventLoop epoll
  on_deregister sock s = record s {
    state = (epoll.remove_usock s.state sock).1;
    token_map = remove epoll.same_socket sock s.token_map;
  }

  -- The loop over the drained actions, and whether the event loop goes on.
  unfoldable pub process : List (QueuedAction epoll) → EventLoop epoll → Bool × EventLoop epoll
  process [] s = (true, s)
  process (register sock token events ∷ actions) s =
      process actions (on_register sock token events s)
  process (deregister sock ∷ actions) s = process actions (on_deregister sock s)
  process (shutdown_event_loop ∷ actions) s = (false, s)
