-- ===== src/Udt/EventLoop/Runs.antt =====
-- src/udt/udt_event_loop.rs: what every run of the thread and of the calls keeps.
use socket_collection.Base.{
  ◌≡◌, refl, sym, subst, Bool, true, false, List, [], ◌∷◌, ◌++◌, some, inl, inr,
}
use mathlib.Core.Option.{none-ne-some}
use mathlib.Core.List.{Memᴰ}
use mathlib.Core.List.Memᴰ
use socket_collection.Base.Dict.{get, of_Memᴰ-add, Memᴰ-insert}
use socket_collection.Env.{Crates}
use socket_collection.Udt.Api.{UdtApi}
use socket_collection.Udt.EventLoop.{Token, Event, EpollApi, QueuedAction, same_action, process}
use socket_collection.Udt.EventLoop.Process.{token_of}
use socket_collection.Udt.EventLoop.System.{Phase, System, after_process, Step, asked_by, Run}
use socket_collection.Udt.EventLoop.Requests.{
  Requested, Registers, AllIn, Both, on_wait-Both, process-Both,
}

module _ {x : Crates} {api : UdtApi x} {epoll : EpollApi api} where
  -- The drained actions that the thread has in hand.
  abbrev pub in_hand : Phase epoll → List (QueuedAction epoll)
  in_hand Phase.waiting = []
  in_hand Phase.draining = []
  in_hand Phase.stopped = []
  in_hand (Phase.handling order) = order

  record Traces (P : QueuedAction epoll → Type 0) (s : System epoll) : Type 0 where
    of_loop : Both P s.loop
    of_hand : AllIn epoll P (in_hand s.phase)
    of_actions : AllIn epoll P s.actions
    of_calls : AllIn epoll P s.calls

  AllIn-cons :
      {P : QueuedAction epoll → Type 0} (a : QueuedAction epoll) (l : List (QueuedAction epoll))
      → P a
      → AllIn epoll P l
      → AllIn epoll P (a ∷ l)
  AllIn-cons {P} a l p all b (Memᴰ.head e) = subst P (sym e) p
  AllIn-cons {P} a l p all b (Memᴰ.tail m) = all b m

  nothing_in_hand : (goes_on : Bool) → in_hand (after_process goes_on) ≡ []
  nothing_in_hand true = refl
  nothing_in_hand false = refl

  of_in_hand :
      (s : System epoll) (order : List (QueuedAction epoll)) {a : QueuedAction epoll}
      → s.phase ≡ Phase.handling order
      → Memᴰ a order
      → Memᴰ a (in_hand s.phase)
  of_in_hand s order {a} e = subst (λ p. Memᴰ a (in_hand p)) (sym e)

  step-Traces :
      (P : QueuedAction epoll → Type 0) {s t : System epoll} (step : Step s t)
      → AllIn epoll P (asked_by step)
      → Traces P s
      → Traces P t
  step-Traces P (Step.upgrade {s} a alive) asked i = record {
    of_loop = i.of_loop;
    of_hand = i.of_hand;
    of_actions = i.of_actions;
    of_calls = AllIn-cons a s.calls (asked a (Memᴰ.head refl)) i.of_calls;
  }
  step-Traces P (Step.insert {s} before a after e) asked i = record {
    of_loop = i.of_loop;
    of_hand = i.of_hand;
    of_actions = λ b m. elim (of_Memᴰ-add (same_action epoll) a s.actions m) [
      | inl new ↦
          i.of_calls b (subst (λ l. Memᴰ b l) (sym e) (Memᴰ.append_right before (Memᴰ.head new)))
      | inr old ↦ i.of_actions b old
    ];
    of_calls = λ b m. i.of_calls b (subst (λ l. Memᴰ b l) (sym e) (Memᴰ-insert before a after m));
  }
  step-Traces P (Step.wait {s} answer state e) asked i = record {
    of_loop = on_wait-Both P answer (record s.loop { state = state }) i.of_loop;
    of_hand = λ b m. elim m [ ];
    of_actions = i.of_actions;
    of_calls = i.of_calls;
  }
  step-Traces P (Step.drain {s} order e iterates) asked i = record {
    of_loop = i.of_loop;
    of_hand = λ b m. i.of_actions b ((iterates.1 b).0 m);
    of_actions = λ b m. elim m [ ];
    of_calls = i.of_calls;
  }
  step-Traces P (Step.handle {s} order e) asked i = record {
    of_loop = process-Both P order s.loop (λ b m. i.of_hand b (of_in_hand s order e m)) i.of_loop;
    of_hand =
        λ b m. elim (subst (λ l. Memᴰ b l) (nothing_in_hand (process epoll order s.loop).0) m) [ ];
    of_actions = i.of_actions;
    of_calls = i.of_calls;
  }

  Traces-mono :
      {P Q : QueuedAction epoll → Type 0} {s : System epoll}
      → ((a : QueuedAction epoll) → P a → Q a)
      → Traces P s
      → Traces Q s
  Traces-mono f i = record {
    of_loop = (
      λ sock token found. let (events, p) = i.of_loop.0 sock token found in (events, f _ p),
      λ e m. let (sock, (events, p)) = i.of_loop.1 e m in (sock, (events, f _ p)),
    );
    of_hand = λ a m. f a (i.of_hand a m);
    of_actions = λ a m. f a (i.of_actions a m);
    of_calls = λ a m. f a (i.of_calls a m);
  }

  run-Traces :
      {state : epoll.Epoll} {asked done : List (QueuedAction epoll)} {s : System epoll}
      → Run state asked done s
      → Traces (λ a. Memᴰ a asked) s
  unfolding get
  run-Traces Run.start = record {
    of_loop = (λ sock token found. absurd (none-ne-some token found), λ e m. elim m [ ]);
    of_hand = λ a m. elim m [ ];
    of_actions = λ a m. elim m [ ];
    of_calls = λ a m. elim m [ ];
  }
  run-Traces (Run.next {asked} {done} {s} {t} r step) =
      step-Traces (λ a. Memᴰ a (asked_by step ++ asked)) step (λ a m. Memᴰ.append_left asked m)
        (Traces-mono (λ a m. Memᴰ.append_right (asked_by step) m) (run-Traces r))

  -- In every run every token in the loop's map was asked for, for that socket, by a call of
  -- `register`, and so was the token of every event that the loop notified, for some socket.
  pub run-Requested :
      {state : epoll.Epoll} {asked done : List (QueuedAction epoll)} {s : System epoll}
      → Run state asked done s
      → ((sock : api.UdtSocket) (token : Token)
          → token_of epoll sock s.loop ≡ some token
          → Registers epoll (λ a. Memᴰ a asked) sock token)
        × ((e : Event) → Memᴰ e s.loop.notified → Requested epoll (λ a. Memᴰ a asked) e.token)
  run-Requested r = (run-Traces r).of_loop
