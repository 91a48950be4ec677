-- ===== src/Udt/Session/Flushed.antt =====
-- What the sending loop of src/udt/udt_sock.rs, on any fuel with which it returns, does to the
-- queue and to the bytes.
use socket_collection.Base.{
  done-injective, ℕ, suc, ◌+◌, ◌≡◌, refl, sym, ap, subst, ◌∙◌, List, [], ◌++◌, Option, none, some,
  Result, ok, err, Bool, true, false, concat, done, arith,
}
use socket_collection.Base.Int.{ℤ, pos, negsuc}
use socket_collection.Base.Loop.{Safe, Keeps, again, return, loop-Safe, loop_mono}
use socket_collection.Env.{Crates, Bytes}
use socket_collection.Error.{Res}
use socket_collection.OutQueue.{Queues}
use socket_collection.OutQueue.Order.{Entry, IsOrdered, entries}
use socket_collection.OutQueue.Refinement.{pop_first-entries}
use socket_collection.OutQueue.Taken.{Leaves, Leaves-pop_entry, taken_bytes}
use socket_collection.OutQueue.Waiting.{current, messages}
use socket_collection.Udt.Api.{UdtApi}
use socket_collection.Udt.Inner.{Inner, take_data, after_send, send_round, flush_round, flush}
use socket_collection.Udt.Inner.Flush.{SendLaws, Conserves, Flushed, work, udt_flush-Flushed}

module _ (l : List (Entry Bytes)) where
  -- Of a map that held these entries, the first ones are gone.
  abbrev LeavesMap : Queues Bytes → Type 0
  LeavesMap q = IsOrdered 0 q × Leaves l (entries q)

  take_data-Leaves :
      (o : Option Bytes) (q : Queues Bytes)
      → LeavesMap q
      → (r : Option Bytes × Queues Bytes) × (take_data o q ≡ done r) × LeavesMap r.1
  unfolding take_data
  take_data-Leaves (some b) q w = ((some b, q), refl, w)
  take_data-Leaves none q (w, g) =
      let (r, e, w', spec) = pop_first-entries 0 q w in
      (r, e, (w', Leaves-pop_entry l (entries q) (entries r.1) (ap (λ t. t.1) spec) g))

  module _ {x : Crates} {api : UdtApi x} where
    abbrev LeavesQueue : Inner api × api.Net → Type 0
    LeavesQueue s = LeavesMap s.0.write_queue

    abbrev LeavesAfter : (Res x Bool × Inner api) × api.Net → Type 0
    LeavesAfter r = LeavesMap r.0.1.write_queue

    after_send-Leaves :
        (s : Inner api) (net : api.Net) (bytes : Bytes) (r : Result api.Failure ℤ)
        → LeavesMap s.write_queue
        → Keeps LeavesQueue LeavesAfter
            (elim (after_send s bytes r) [ again t ↦ again (t, net) | return a ↦ return (a, net) ])
    unfolding after_send
    after_send-Leaves s net bytes (ok (pos n)) w = ground arith
    after_send-Leaves s net bytes (ok (negsuc n)) w = w
    after_send-Leaves s net bytes (err e) w = ground arith

    send_round-Leaves :
        (o : Option Bytes) (s : Inner api) (net : api.Net)
        → LeavesMap s.write_queue
        → Keeps LeavesQueue LeavesAfter (send_round (o, s) net)
    unfolding send_round
    send_round-Leaves none s net w = w
    send_round-Leaves (some bytes) s net w =
        after_send-Leaves s (api.send s.stream bytes net).1 bytes (api.send s.stream bytes net).0 w

    flush_round-Leaves :
        (s : Inner api × api.Net)
        → LeavesQueue s
        → Safe (Keeps LeavesQueue LeavesAfter) (flush_round s)
    unfolding flush_round
    flush_round-Leaves (s, net) w =
        let (r, e, w') = take_data-Leaves s.current_write s.write_queue w in
        rw e (send_round-Leaves r.0 (record s { current_write = none; write_queue = r.1 }) net w')

    flush-Leaves :
        (fuel : ℕ) (s : Inner api) (net : api.Net)
        → LeavesMap s.write_queue
        → Safe LeavesAfter (flush fuel s net)
    unfolding flush
    flush-Leaves fuel s net w =
        loop-Safe LeavesQueue LeavesAfter flush_round flush_round-Leaves fuel (s, net) w

module _ {x : Crates} {api : UdtApi x} (laws : SendLaws api) where
  -- What has been handed to the library, with the begun message.
  abbrev pub begun : Inner api → api.Net → Bytes
  begun s net = laws.wire s.stream net ++ concat (current s.current_write)

  -- The messages that the loop has taken from the queue follow what was begun before.
  pub record Moves (s : Inner api) (net : api.Net) (s' : Inner api) (net' : api.Net) : Type 0 where
    pub gone : List (Entry Bytes)
    pub split : entries s.write_queue ≡ gone ++ entries s'.write_queue
    pub bytes : begun s' net' ≡ begun s net ++ concat (messages gone)
    pub ordered : IsOrdered 0 s'.write_queue
    pub stream : s'.stream ≡ s.stream

  conserved :
      (s : Inner api) (net : api.Net) (sent_all : Bool) (s' : Inner api) (net' : api.Net)
      → Flushed laws s net ((ok sent_all, s'), net')
      → Conserves laws s net s' net' []
  conserved s net true s' net' f = f.0
  conserved s net false s' net' f = f.0

  flush-Conserves :
      (fuel : ℕ) (s s' : Inner api) (net net' : api.Net) (sent_all : Bool)
      → IsOrdered 0 s.write_queue
      → flush fuel s net ≡ done ((ok sent_all, s'), net')
      → Conserves laws s net s' net' []
  unfolding flush
  flush-Conserves fuel s s' net net' sent_all w h =
      let enough = suc (fuel + work s) in
      let (r, e, f) = udt_flush-Flushed laws enough s net w (omega arith) in
      let same =
        loop_mono flush_round fuel enough (s, net) ((ok sent_all, s'), net') (omega arith) h in
      conserved s net sent_all s' net'
        (subst (Flushed laws s net) (done-injective (sym e ∙ same)) f)

  pub flush-Moves :
      (fuel : ℕ) (s s' : Inner api) (net net' : api.Net) (sent_all : Bool)
      → IsOrdered 0 s.write_queue
      → flush fuel s net ≡ done ((ok sent_all, s'), net')
      → Moves s net s' net'
  flush-Moves fuel s s' net net' sent_all w h =
      let l = entries s.write_queue in
      let (w', (gone, split)) =
        subst (Safe (LeavesAfter l)) h (flush-Leaves l fuel s net (w, ([], refl))) in
      let v = flush-Conserves fuel s s' net net' sent_all w h in
      record {
        gone = gone;
        split = split;
        bytes =
            ap (λ k. laws.wire k net' ++ concat (current s'.current_write)) v.stream
            ∙ taken_bytes (laws.wire s.stream net) (laws.wire s.stream net')
                (current s.current_write) (current s'.current_write) gone (entries s'.write_queue)
                (v.bytes
                  ∙ ap
                      (λ l.
                        laws.wire s.stream net ++ concat (current s.current_write ++ messages l))
                      split);
        ordered = w';
        stream = v.stream;
      }
