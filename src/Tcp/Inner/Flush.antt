-- ===== src/Tcp/Inner/Flush.antt =====
-- `flush_write_until_would_block` of src/tcp.rs: it ends, and no byte is lost or reordered.
use socket_collection.Base.{
  ℕ, suc, ◌+◌, ◌<◌, ◌≡◌, refl, sym, ap, subst, ◌∙◌, List, [], ◌∷◌, ◌++◌, Option, none, some, ok,
  err, Result, Bool, true, false, Bool-cases, ltb, ltb→lt, ltb→le, length, drop, concat, done,
  arith, inl, inr, length-append, append_assoc, append-take-drop, length-drop, take_of_length-le,
}
use socket_collection.Base.Loop.{loop_rule, Progress}
use socket_collection.Env.{Crates, Bytes}
use socket_collection.Error.{IoError, Res, io, is_retry}
use socket_collection.OutQueue.{OutQueue}
use socket_collection.OutQueue.Refinement.{IsWellFormed, queued}
use socket_collection.OutQueue.Cut.{Cut, Continues, Continues-self, Continues-whole, Cut-drop}
use socket_collection.OutQueue.Waiting.{Takes, waiting, messages, take_or_next-Takes}
use socket_collection.Mio.{TcpApi}
use socket_collection.Tcp.Inner.{
  Inner, next_data, after_write, write_round, flush_round, flush_write_until_would_block,
}
use socket_collection.Tcp.Inner.Pending.{SendLaws, pending, work, Keeps}

module _ {x : Crates} {api : TcpApi x} (laws : SendLaws api) where
  -- Bytes on the wire and bytes to send, from `s` on: nothing is lost, repeated or reordered.
  pub record Conserves (s s' : Inner api) (lost : Bytes) : Type 0 where
    pub bytes : laws.wire s'.stream ++ (lost ++ pending s') ≡ laws.wire s.stream ++ pending s
    pub ordered : IsWellFormed s'.out_queue
    pub kept : Keeps s s'

  -- What the answers of the flush mean. After an error, the rest of one message is lost: those in
  -- front of it have been sent in whole, and all those behind it still wait.
  abbrev pub Flushed : Inner api → Res x Bool × Inner api → Type 0
  Flushed s (ok true, s') = Conserves s s' [] × (waiting s'.current_write s'.out_queue ≡ [])
  Flushed s (ok false, s') = Conserves s s' [] × ((rest : Bytes) × (s'.current_write ≡ some rest))
  Flushed s (err e, s') =
      ((lost : Bytes) × Conserves s s' lost
        × Cut (waiting s.current_write s.out_queue) lost (waiting s'.current_write s'.out_queue))
      × ((error : IoError) × (e ≡ io error) × (is_retry error.kind ≡ false))

  -- What the rounds keep.
  abbrev pub Holds : Inner api → Inner api → Type 0
  Holds s t =
      Conserves s t []
      × Continues (waiting s.current_write s.out_queue) (waiting t.current_write t.out_queue)

  -- Between two messages, what is pending is what the queue holds.
  pending-none :
      (t : Inner api)
      → t.current_write ≡ none
      → waiting t.current_write t.out_queue ≡ messages (queued t.out_queue)
  pending-none t e = ap (λ o. waiting o t.out_queue) e

  after_write-Progress :
      (s t : Inner api) (bytes : Bytes) (r : Result IoError ℕ × api.Stream)
      → Conserves s t bytes
      → Cut (waiting s.current_write s.out_queue) bytes (messages (queued t.out_queue))
      → t.current_write ≡ none
      → api.write t.stream bytes ≡ r
      → Progress
          (Holds s)
          (Flushed s)
          work
          (suc (work t) + length bytes)
          (done (after_write t bytes r))
  unfolding after_write
  after_write-Progress s t bytes (ok n, stream) v u e h =
      let (bound, moves, wire) = laws.write_ok t.stream stream bytes n h in
      let begun = waiting s.current_write s.out_queue in
      let rest = concat (messages (queued t.out_queue)) in
      let none_left = pending-none t e in
      elim (Bool-cases (ltb n (length bytes))) [
        | inl partial ↦
            rw (partial, after_write)
              (
                (
                  record {
                    bytes =
                        ap (λ l. l ++ (drop n bytes ++ rest)) wire
                        ∙ append-take-drop n (laws.wire t.stream) bytes rest
                        ∙ ap (λ l. laws.wire t.stream ++ (bytes ++ concat l)) (sym none_left)
                        ∙ v.bytes;
                    ordered = v.ordered;
                    kept = record {
                      reader = v.kept.reader;
                      context = v.kept.context;
                      conf = v.kept.conf;
                    };
                  },
                  Cut-drop n begun (messages (queued t.out_queue)) bytes u,
                ),
                omega (
                  arith,
                  ap length none_left,
                  ap (λ l. length (concat l)) none_left,
                  length-append (drop n bytes) rest,
                  length-drop n bytes,
                  ltb→lt n (length bytes) partial,
                  moves (omega (arith, ltb→lt n (length bytes) partial)),
                ),
              )
        | inr full ↦
            rw (full, after_write)
              (
                (
                  record {
                    bytes =
                        ap (λ l. l ++ pending t)
                          (wire
                            ∙ ap (◌++◌ (laws.wire t.stream))
                                (take_of_length-le n bytes (ltb→le _ _ full)))
                        ∙ append_assoc (laws.wire t.stream) bytes (pending t)
                        ∙ v.bytes;
                    ordered = v.ordered;
                    kept = record {
                      reader = v.kept.reader;
                      context = v.kept.context;
                      conf = v.kept.conf;
                    };
                  },
                  subst (Continues begun) (sym none_left)
                      (Continues-whole begun (messages (queued t.out_queue)) bytes u),
                ),
                omega arith,
              )
      ]
  after_write-Progress s t bytes (err error, stream) v u e h =
      let wire = laws.write_err t.stream stream bytes error h in
      elim (Bool-cases (is_retry error.kind)) [
        | inl retry ↦
            rw (retry, after_write)
              (
                record {
                  bytes =
                      ap (λ l. l ++ (bytes ++ concat (messages (queued t.out_queue)))) wire
                      ∙ ap (λ l. laws.wire t.stream ++ (bytes ++ concat l)) (sym (pending-none t e))
                      ∙ v.bytes;
                  ordered = v.ordered;
                  kept = record {
                    reader = v.kept.reader;
                    context = v.kept.context;
                    conf = v.kept.conf;
                  };
                },
                (bytes, refl),
              )
        | inr fatal ↦
            rw (fatal, after_write)
              (
                (
                  bytes,
                  record {
                    bytes = ap (λ l. l ++ (bytes ++ pending t)) wire ∙ v.bytes;
                    ordered = v.ordered;
                    kept = record {
                      reader = v.kept.reader;
                      context = v.kept.context;
                      conf = v.kept.conf;
                    };
                  },
                  subst (Cut (waiting s.current_write s.out_queue) bytes) (sym (pending-none t e))
                      u,
                ),
                (error, refl, fatal),
              )
      ]

  -- What is pending, split at the message that was taken.
  work-Takes :
      (before after : List Bytes) (b : Bytes)
      → before ≡ b ∷ after
      → length (concat before) + length before
        ≡ suc (length (concat after) + length after) + length b
  work-Takes before after b h =
      omega (arith, ap length h, ap (λ l. length (concat l)) h, length-append b (concat after))

  taken-Progress :
      (s t : Inner api) (o : Option Bytes) (q : OutQueue x Bytes)
      → Holds s t
      → Takes (waiting t.current_write t.out_queue) o (messages (queued q))
      → IsWellFormed q
      → q.conf ≡ t.out_queue.conf
      → Progress
          (Holds s)
          (Flushed s)
          work
          (work t)
          (done (write_round (o, record t { current_write = none; out_queue = q })))
  unfolding write_round
  taken-Progress s t none q (v, u) (before, after) w conf = (
    record {
      bytes = ap (λ l. laws.wire t.stream ++ concat l) (after ∙ sym before) ∙ v.bytes;
      ordered = w;
      kept = record { reader = v.kept.reader; context = v.kept.context; conf = conf ∙ v.kept.conf };
    },
    after,
  )
  taken-Progress s t (some b) q (v, u) before w conf =
      let t' : Inner api = record t { current_write = none; out_queue = q } in
      subst
        (λ m.
          Progress (Holds s) (Flushed s) work m (done (after_write t' b (api.write t'.stream b))))
        (sym (work-Takes _ (messages (queued q)) b before))
        (after_write-Progress s t' b (api.write t'.stream b)
          (record {
            bytes = ap (λ l. laws.wire t.stream ++ concat l) (sym before) ∙ v.bytes;
            ordered = w;
            kept = record {
              reader = v.kept.reader;
              context = v.kept.context;
              conf = conf ∙ v.kept.conf;
            };
          })
          (subst (Continues (waiting s.current_write s.out_queue)) before u) refl refl)

  pub flush_round-Progress :
      (s t : Inner api) → Holds s t → Progress (Holds s) (Flushed s) work (work t) (flush_round t)
  unfolding flush_round next_data
  flush_round-Progress s t v =
      let (r, e, takes, w, conf) = take_or_next-Takes t.current_write t.out_queue v.0.ordered in
      rw e (taken-Progress s t r.0 r.1 v takes w conf)

  -- On a stream that keeps its contract, with a well-formed queue and more fuel than there are
  -- pending bytes and waiting messages, the flush returns, and does not panic. What the stream has
  -- accepted, followed by what is still pending, is then as before: nothing is lost, repeated or
  -- reordered. After `Ok(true)` nothing waits; after `Ok(false)` the rest of a message waits. Only
  -- an error that is not to be retried is returned, and it loses what was left of the message that
  -- was being sent, and nothing else: the messages in front of it have been sent in whole, and all
  -- those behind it still wait.
  pub flush-Flushed :
      (fuel : ℕ) (s : Inner api)
      → IsWellFormed s.out_queue
      → work s < fuel
      → (r : Res x Bool × Inner api) × (flush_write_until_would_block fuel s ≡ done r) × Flushed s r
  unfolding flush_write_until_would_block
  flush-Flushed fuel s w enough =
      loop_rule (Holds s) (Flushed s) work flush_round (flush_round-Progress s) fuel s enough (
        record {
          bytes = refl;
          ordered = w;
          kept = record { reader = refl; context = refl; conf = refl };
        },
        Continues-self (waiting s.current_write s.out_queue),
      )
