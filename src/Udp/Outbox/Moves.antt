-- ===== src/Udp/Outbox/Moves.antt =====
-- What the sending loop of src/udp.rs, on any fuel with which it returns, does to the queue and to
-- the datagrams.
use socket_collection.Base.{
  done-injective, ℕ, suc, ◌+◌, ◌≡◌, sym, ap, subst, ◌∙◌, List, [], ◌++◌, ok, Bool, true, false,
  Result, done, arith,
}
use socket_collection.Base.Loop.{loop, loop_mono, Safe}
use socket_collection.Env.{Crates}
use socket_collection.Error.{IoError}
use socket_collection.OutQueue.Order.{Entry}
use socket_collection.OutQueue.Refinement.{IsWellFormed, queued}
use socket_collection.OutQueue.Taken.{taken_messages}
use socket_collection.OutQueue.Waiting.{current, messages}
use socket_collection.Udp.Outbox.{Outbox, flush_round}
use socket_collection.Udp.Outbox.Flush.{SendLaws, Conserves, Flushed, work, loop-Flushed}
use socket_collection.Udp.Outbox.Safety.{LeavesRest, loop-LeavesRest}

module _ {x : Crates} {Sock M : Type 0} (send : Sock → M → Result IoError ℕ × Sock) (len : M → ℕ)
    (laws : SendLaws send len) where
  -- The datagrams handed to the socket, with the one that is to be sent again.
  abbrev pub begun : Outbox x Sock M → List M
  begun s = laws.sent s.sock ++ current s.current_write

  -- The messages that the loop has taken from the queue follow what was begun before.
  pub record Moves (s s' : Outbox x Sock M) : Type 0 where
    pub gone : List (Entry M)
    pub split : queued s.out_queue ≡ gone ++ queued s'.out_queue
    pub datagrams : begun s' ≡ begun s ++ messages gone
    pub ordered : IsWellFormed s'.out_queue
    pub conf : s'.out_queue.conf ≡ s.out_queue.conf

  conserved :
      (t : Outbox x Sock M) (sent_all : Bool) (s' : Outbox x Sock M)
      → Flushed send len laws t (ok sent_all, s')
      → Conserves send len laws t s' []
  conserved t true s' f = f.0
  conserved t false s' f = f.0

  loop-Conserves :
      (fuel : ℕ) (s s' : Outbox x Sock M) (sent_all : Bool)
      → IsWellFormed s.out_queue
      → loop fuel (flush_round send len) s ≡ done (ok sent_all, s')
      → Conserves send len laws s s' []
  loop-Conserves fuel s s' sent_all w h =
      let enough = suc (fuel + work send len laws s) in
      let (r, e, f) = loop-Flushed send len laws enough s w (omega arith) in
      let same = loop_mono (flush_round send len) fuel enough s (ok sent_all, s') (omega arith) h in
      conserved s sent_all s' (subst (Flushed send len laws s) (done-injective (sym e ∙ same)) f)

  pub loop-Moves :
      (fuel : ℕ) (s s' : Outbox x Sock M) (sent_all : Bool)
      → IsWellFormed s.out_queue
      → loop fuel (flush_round send len) s ≡ done (ok sent_all, s')
      → Moves s s'
  loop-Moves fuel s s' sent_all w h =
      let (w', (gone, split)) =
        subst (Safe (LeavesRest (queued s.out_queue))) h (loop-LeavesRest send len fuel s w) in
      let v = loop-Conserves fuel s s' sent_all w h in
      record {
        gone = gone;
        split = split;
        datagrams =
            taken_messages (laws.sent s.sock) (laws.sent s'.sock) (current s.current_write)
              (current s'.current_write) gone (queued s'.out_queue)
              (v.datagrams
                ∙ ap (λ l. laws.sent s.sock ++ (current s.current_write ++ messages l)) split);
        ordered = w';
        conf = v.conf;
      }
