-- ===== src/Udt/Inner/Flush.antt =====
-- The sending loop of src/udt/udt_sock.rs: it ends, and no byte is lost or reordered.
use socket_collection.Base.{
  ℕ, suc, ◌+◌, ◌≤◌, ◌<◌, ◌≡◌, refl, sym, ap, subst, ◌∙◌, List, [], ◌∷◌, ◌++◌, Option, none, some,
  ok, err, Result, Bool, true, false, Bool-cases, ltb, ltb→lt, ltb→le, length, take, drop, concat,
  done, arith, inl, inr, ◌⊎◌, length-append, append_assoc, append-take-drop, length-drop,
  take_of_length-le,
}
use socket_collection.Base.Int.{ℤ, pos, negsuc}
use socket_collection.Base.Loop.{again, return, loop_rule, Progress}
use socket_collection.Env.{Crates, Bytes}
use socket_collection.Error.{Res, udt_negative_bytes_write}
use socket_collection.OutQueue.{Queues}
use socket_collection.OutQueue.Order.{IsOrdered, entries}
use socket_collection.OutQueue.Cut.{Cut, Continues, Continues-self, Continues-whole, Cut-drop}
use socket_collection.OutQueue.Waiting.{Takes, messages}
use socket_collection.Udt.Api.{UdtApi}
use socket_collection.Udt.Inner.{Inner, after_send, send_round, flush_round, flush}
use socket_collection.Udt.Inner.Queue.{waiting, take_data-Takes}

-- What the library promises of `send`: it accepts a beginning of what it is given, a byte at least
-- of what is not empty, and nothing where it fails. `wire` is all that the socket has accepted.
pub record SendLaws {x : Crates} (api : UdtApi x) : Type 0 where
  pub wire : api.UdtSocket → api.Net → Bytes
  pub send_ok :
      (s : api.UdtSocket) (net net' : api.Net) (bytes : Bytes) (n : ℕ)
      → api.send s bytes net ≡ (ok (pos n), net')
      → (n ≤ length bytes) × (0 < length bytes → 0 < n) × (wire s net' ≡ wire s net ++ take n bytes)
  pub send_negative :
      (s : api.UdtSocket) (net net' : api.Net) (bytes : Bytes) (n : ℕ)
      → api.send s bytes net ≡ (ok (negsuc n), net')
      → wire s net' ≡ wire s net
  pub send_err :
      (s : api.UdtSocket) (net net' : api.Net) (bytes : Bytes) (e : api.Failure)
      → api.send s bytes net ≡ (err e, net')
      → wire s net' ≡ wire s net

module _ {x : Crates} {api : UdtApi x} where
  abbrev pub pending : Inner api → Bytes
  pending s = concat (waiting s.current_write s.write_queue)

  -- The rounds that are enough to send everything: one for each byte and each message.
  abbrev pub work : Inner api → ℕ
  work s = length (pending s) + length (waiting s.current_write s.write_queue)

module _ {x : Crates} {api : UdtApi x} (laws : SendLaws api) where
  -- Bytes on the wire and bytes to send, from `s` on.
  pub record Conserves (s : Inner api) (net : api.Net) (s' : Inner api) (net' : api.Net)
      (lost : Bytes) : Type 0 where
    pub bytes :
        laws.wire s.stream net' ++ (lost ++ pending s') ≡ laws.wire s.stream net ++ pending s
    pub ordered : IsOrdered 0 s'.write_queue
    pub stream : s'.stream ≡ s.stream
    pub buffered : s'.read_buffer ≡ s.read_buffer
    pub started : s'.read_len ≡ s.read_len

  -- What the answers of the loop mean. After an error, the rest of one message is lost: those in
  -- front of it have been sent in whole, and all those behind it still wait.
  abbrev pub Flushed : Inner api → api.Net → (Res x Bool × Inner api) × api.Net → Type 0
  Flushed s net ((ok true, s'), net') =
      Conserves s net s' net' [] × (waiting s'.current_write s'.write_queue ≡ [])
  Flushed s net ((ok false, s'), net') =
      Conserves s net s' net' [] × ((rest : Bytes) × (s'.current_write ≡ some rest))
  Flushed s net ((err e, s'), net') =
      ((lost : Bytes) × Conserves s net s' net' lost
        × Cut (waiting s.current_write s.write_queue) lost
            (waiting s'.current_write s'.write_queue))
      × (((f : api.Failure) × (e ≡ api.into_socket_error f) × (api.is_easyncsnd f ≡ false))
          ⊎ ((n : ℕ) × (e ≡ udt_negative_bytes_write (negsuc n))))

  module _ (s : Inner api) (net : api.Net) where
    abbrev begun : List Bytes
    begun = waiting s.current_write s.write_queue

    abbrev Holds : Inner api × api.Net → Type 0
    Holds t =
        Conserves s net t.0 t.1 [] × Continues begun (waiting t.0.current_write t.0.write_queue)

    abbrev rounds : Inner api × api.Net → ℕ
    rounds t = work t.0

    -- The message that was taken stays with the socket, or is lost; the wire is as before.
    kept-Conserves :
        (t : Inner api) (n n' : api.Net) (bytes : Bytes)
        → Conserves s net t n bytes
        → t.current_write ≡ none
        → laws.wire t.stream n' ≡ laws.wire t.stream n
        → Conserves s net (record t { current_write = some bytes }) n' []
    kept-Conserves t n n' bytes v e same = record {
      bytes =
          ap (λ l. l ++ (bytes ++ concat (messages (entries t.write_queue)))) (rw (← v.stream) same)
          ∙ ap (λ o. laws.wire s.stream n ++ (bytes ++ concat (waiting o t.write_queue))) (sym e)
          ∙ v.bytes;
      ordered = v.ordered;
      stream = v.stream;
      buffered = v.buffered;
      started = v.started;
    }

    unsent-Conserves :
        (t : Inner api) (n n' : api.Net) (bytes : Bytes)
        → Conserves s net t n bytes
        → laws.wire t.stream n' ≡ laws.wire t.stream n
        → Conserves s net t n' bytes
    unsent-Conserves t n n' bytes v same = record {
      bytes = ap (λ l. l ++ (bytes ++ pending t)) (rw (← v.stream) same) ∙ v.bytes;
      ordered = v.ordered;
      stream = v.stream;
      buffered = v.buffered;
      started = v.started;
    }

    still_waiting :
        (t : Inner api) (bytes : Bytes)
        → t.current_write ≡ none
        → Cut begun bytes (messages (entries t.write_queue))
        → Cut begun bytes (waiting t.current_write t.write_queue)
    still_waiting t bytes e u =
        subst (Cut begun bytes) (ap (λ o. waiting o t.write_queue) (sym e)) u

    sent-Progress :
        (t : Inner api) (n n' : api.Net) (bytes : Bytes) (r : Result api.Failure ℤ)
        → Conserves s net t n bytes
        → Cut begun bytes (messages (entries t.write_queue))
        → t.current_write ≡ none
        → api.send t.stream bytes n ≡ (r, n')
        → Progress Holds (Flushed s net) rounds (suc (work t) + length bytes) (
            done (elim (after_send t bytes r) [
              | again t' ↦ again (t', n')
              | return a ↦ return (a, n')
            ]))
    unfolding after_send
    sent-Progress t n n' bytes (ok (pos k)) v u e h =
        let (bound, moves, accepted) = laws.send_ok t.stream n n' bytes k h in
        let wire : laws.wire s.stream n' ≡ laws.wire s.stream n ++ take k bytes =
          rw (← v.stream) accepted in
        let rest = concat (messages (entries t.write_queue)) in
        let none_left : waiting t.current_write t.write_queue ≡ messages (entries t.write_queue) =
          ap (λ o. waiting o t.write_queue) e in
        elim (Bool-cases (ltb k (length bytes))) [
          | inl partial ↦
              rw (partial, after_send)
                (
                  (
                    record {
                      bytes =
                          ap (λ l. l ++ (drop k bytes ++ rest)) wire
                          ∙ append-take-drop k (laws.wire s.stream n) bytes rest
                          ∙ ap (λ l. laws.wire s.stream n ++ (bytes ++ concat l)) (sym none_left)
                          ∙ v.bytes;
                      ordered = v.ordered;
                      stream = v.stream;
                      buffered = v.buffered;
                      started = v.started;
                    },
                    Cut-drop k begun (messages (entries t.write_queue)) bytes u,
                  ),
                  omega (
                    arith,
                    ap length none_left,
                    ap (λ l. length (concat l)) none_left,
                    length-append (drop k bytes) rest,
                    length-drop k bytes,
                    ltb→lt k (length bytes) partial,
                    moves (omega (arith, ltb→lt k (length bytes) partial)),
                  ),
                )
          | inr whole ↦
              rw (whole, after_send)
                (
                  (
                    record {
                      bytes =
                          ap (λ l. l ++ pending t)
                            (wire
                              ∙ ap (◌++◌ (laws.wire s.stream n))
                                  (take_of_length-le k bytes (ltb→le _ _ whole)))
                          ∙ append_assoc (laws.wire s.stream n) bytes (pending t)
                          ∙ v.bytes;
                      ordered = v.ordered;
                      stream = v.stream;
                      buffered = v.buffered;
                      started = v.started;
                    },
                    subst (Continues begun) (sym none_left)
                        (Continues-whole begun (messages (entries t.write_queue)) bytes u),
                  ),
                  omega arith,
                )
        ]
    sent-Progress t n n' bytes (ok (negsuc k)) v u e h = (
      (
        bytes,
        unsent-Conserves t n n' bytes v (laws.send_negative t.stream n n' bytes k h),
        still_waiting t bytes e u,
      ),
      inr (k, refl),
    )
    sent-Progress t n n' bytes (err error) v u e h =
        let same = laws.send_err t.stream n n' bytes error h in
        elim (Bool-cases (api.is_easyncsnd error)) [
          | inl retry ↦ rw (retry, after_send) (kept-Conserves t n n' bytes v e same, (bytes, refl))
          | inr fatal ↦
              rw (fatal, after_send)
                (
                  (bytes, unsent-Conserves t n n' bytes v same, still_waiting t bytes e u),
                  inl (error, refl, fatal),
                )
        ]

    -- What is pending, split at the message that was taken.
    work-Takes :
        (before after : List Bytes) (b : Bytes)
        → before ≡ b ∷ after
        → length (concat before) + length before
          ≡ suc (length (concat after) + length after) + length b
    work-Takes before after b h =
        omega (arith, ap length h, ap (λ l. length (concat l)) h, length-append b (concat after))

    taken-Progress :
        (t : Inner api) (n : api.Net) (o : Option Bytes) (q : Queues Bytes)
        → Holds (t, n)
        → Takes (waiting t.current_write t.write_queue) o (messages (entries q))
        → IsOrdered 0 q
        → Progress Holds
            (Flushed s net)
            rounds
            (work t)
            (done (send_round (o, record t { current_write = none; write_queue = q }) n))
    unfolding send_round
    taken-Progress t n none q (v, u) (before, after) w = (
      record {
        bytes = ap (λ l. laws.wire s.stream n ++ concat l) (after ∙ sym before) ∙ v.bytes;
        ordered = w;
        stream = v.stream;
        buffered = v.buffered;
        started = v.started;
      },
      after,
    )
    taken-Progress t n (some b) q (v, u) before w =
        let t' : Inner api = record t { current_write = none; write_queue = q } in
        subst (λ m. Progress Holds (Flushed s net) rounds m (done (send_round (some b, t') n)))
          (sym (work-Takes _ (messages (entries q)) b before))
          (sent-Progress t' n (api.send t'.stream b n).1 b (api.send t'.stream b n).0
            (record {
              bytes = ap (λ l. laws.wire s.stream n ++ concat l) (sym before) ∙ v.bytes;
              ordered = w;
              stream = v.stream;
              buffered = v.buffered;
              started = v.started;
            })
            (subst (Continues begun) before u) refl refl)

    flush_round-Progress :
        (t : Inner api × api.Net)
        → Holds t
        → Progress Holds (Flushed s net) rounds (rounds t) (flush_round t)
    unfolding flush_round
    flush_round-Progress (t, n) v =
        let (r, e, takes, w) = take_data-Takes t.current_write t.write_queue v.0.ordered in
        rw e (taken-Progress t n r.0 r.1 v takes w)

  -- With a library that keeps its contract, an ordered queue and more fuel than there are pending
  -- bytes and waiting messages, the sending loop returns, and does not panic. What the socket has
  -- accepted, followed by what is still pending, is then as before: nothing is lost, repeated or
  -- reordered. After `Ok(true)` nothing waits; after `Ok(false)` the rest of a message waits; an
  -- error is one of the library that is not to be retried, or that a negative number of bytes was
  -- reported. It loses what was left of the message that was being sent, and nothing else: the
  -- messages in front of it have been sent in whole, and all those behind it still wait.
  pub udt_flush-Flushed :
      (fuel : ℕ) (s : Inner api) (net : api.Net)
      → IsOrdered 0 s.write_queue
      → work s < fuel
      → (r : (Res x Bool × Inner api) × api.Net) × (flush fuel s net ≡ done r) × Flushed s net r
  unfolding flush
  udt_flush-Flushed fuel s net w enough =
      loop_rule (Holds s net) (Flushed s net) (rounds s net) flush_round
        (flush_round-Progress s net) fuel (s, net) enough
        (
          record { bytes = refl; ordered = w; stream = refl; buffered = refl; started = refl },
          Continues-self (waiting s.current_write s.write_queue),
        )
