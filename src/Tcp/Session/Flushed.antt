-- ===== src/Tcp/Session/Flushed.antt =====
-- What one flush of src/tcp.rs, on any fuel with which it returns, does to the queue and to the
-- bytes.
use socket_collection.Base.{
  done-injective, ℕ, suc, ◌+◌, ◌≡◌, sym, ap, subst, ◌∙◌, List, [], ◌++◌, ok, Bool, true, false,
  concat, done, arith,
}
use socket_collection.Base.Loop.{Safe, loop_mono}
use socket_collection.Env.{Crates, Bytes}
use socket_collection.OutQueue.Order.{Entry}
use socket_collection.OutQueue.Refinement.{IsWellFormed, queued}
use socket_collection.OutQueue.Taken.{taken_bytes}
use socket_collection.OutQueue.Waiting.{current, messages}
use socket_collection.Mio.{TcpApi}
use socket_collection.Tcp.Inner.{Inner, flush_round, flush_write_until_would_block}
use socket_collection.Tcp.Inner.Leaves.{LeavesAfter, flush-Leaves}
use socket_collection.Tcp.Inner.Pending.{SendLaws, work}
use socket_collection.Tcp.Inner.Flush.{Conserves, Flushed, flush-Flushed}

module _ {x : Crates} {api : TcpApi x} (laws : SendLaws api) where
  -- What has been handed to the stream, with the begun message.
  abbrev pub begun : Inner api → Bytes
  begun s = laws.wire s.stream ++ concat (current s.current_write)

  conserved :
      (t : Inner api) (sent_all : Bool) (s' : Inner api)
      → Flushed laws t (ok sent_all, s')
      → Conserves laws t s' []
  conserved t true s' f = f.0
  conserved t false s' f = f.0

  -- The messages that a flush has taken from the queue follow what was begun before.
  pub record Moves (s s' : Inner api) : Type 0 where
    pub gone : List (Entry Bytes)
    pub split : queued s.out_queue ≡ gone ++ queued s'.out_queue
    pub bytes : begun s' ≡ begun s ++ concat (messages gone)
    pub ordered : IsWellFormed s'.out_queue
    pub context : s'.enc_ctx ≡ s.enc_ctx
    pub conf : s'.out_queue.conf ≡ s.out_queue.conf

  flush-Conserves :
      (fuel : ℕ) (s s' : Inner api) (sent_all : Bool)
      → IsWellFormed s.out_queue
      → flush_write_until_would_block fuel s ≡ done (ok sent_all, s')
      → Conserves laws s s' []
  unfolding flush_write_until_would_block
  flush-Conserves fuel s s' sent_all w h =
      let (r, e, f) = flush-Flushed laws (suc (fuel + work s)) s w (omega arith) in
      let same =
        loop_mono flush_round fuel (suc (fuel + work s)) s (ok sent_all, s') (omega arith) h in
      conserved s sent_all s' (subst (Flushed laws s) (done-injective (sym e ∙ same)) f)

  pub flush-Moves :
      (fuel : ℕ) (s s' : Inner api) (sent_all : Bool)
      → IsWellFormed s.out_queue
      → flush_write_until_would_block fuel s ≡ done (ok sent_all, s')
      → Moves s s'
  flush-Moves fuel s s' sent_all w h =
      let (w', (gone, split)) =
        subst (Safe (LeavesAfter (queued s.out_queue))) h (flush-Leaves fuel s w) in
      let v = flush-Conserves fuel s s' sent_all w h in
      record {
        gone = gone;
        split = split;
        bytes =
            taken_bytes (laws.wire s.stream) (laws.wire s'.stream) (current s.current_write)
              (current s'.current_write) gone (queued s'.out_queue)
              (v.bytes
                ∙ ap (λ l. laws.wire s.stream ++ concat (current s.current_write ++ messages l))
                    split);
        ordered = w';
        context = v.kept.context;
        conf = v.kept.conf;
      }
