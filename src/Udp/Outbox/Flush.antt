-- ===== src/Udp/Outbox/Flush.antt =====
-- The sending loop of src/udp.rs: it ends, and every datagram is sent whole, in order.
use socket_collection.Base.{
  ℕ, suc, ◌+◌, ◌≤◌, ◌<◌, ◌≡◌, refl, sym, ap, subst, ◌∙◌, List, [], ◌∷◌, ◌++◌, Option, none, some,
  ok, err, Result, Bool, true, false, Bool-cases, ltb, ltb→lt, ltb→le, length, done, arith, inl,
  inr, append_assoc,
}
use socket_collection.Base.Loop.{loop, loop_rule, Progress}
use socket_collection.Env.{Crates}
use socket_collection.Error.{IoError, Res, io, is_retry}
use socket_collection.OutQueue.{OutQueue}
use socket_collection.OutQueue.Refinement.{IsWellFormed, queued}
use socket_collection.OutQueue.Waiting.{Takes, waiting, messages, take_or_next-Takes}
use socket_collection.Udp.Handlers.{handle_send_res}
use socket_collection.Udp.Outbox.{Outbox, after_send, send_round, flush_round}

module _ {Sock M : Type 0} (send : Sock → M → Result IoError ℕ × Sock) (len : M → ℕ) where
  -- What a socket promises of `send`: it takes a datagram whole, or reports that it took less, and
  -- does the latter only so often in a row. `sent` holds the whole datagrams that it has taken.
  pub record SendLaws : Type 0 where
    pub sent : Sock → List M
    pub patience : Sock → ℕ
    pub send_whole :
        (s s' : Sock) (m : M) (n : ℕ)
        → send s m ≡ (ok n, s')
        → len m ≤ n
        → (sent s' ≡ sent s ++ (m ∷ [])) × (patience s' ≤ patience s)
    pub send_part :
        (s s' : Sock) (m : M) (n : ℕ)
        → send s m ≡ (ok n, s')
        → n < len m
        → (sent s' ≡ sent s) × (patience s' < patience s)
    pub send_err : (s s' : Sock) (m : M) (e : IoError) → send s m ≡ (err e, s') → sent s' ≡ sent s

module _ {x : Crates} {Sock M : Type 0} (send : Sock → M → Result IoError ℕ × Sock) (len : M → ℕ)
    (laws : SendLaws send len) where
  abbrev pub backlog : Outbox x Sock M → List M
  backlog s = waiting s.current_write s.out_queue

  -- The rounds that are enough: one for each datagram and for each failed attempt.
  abbrev pub work : Outbox x Sock M → ℕ
  work s = laws.patience s.sock + length (backlog s)

  -- Datagrams taken and datagrams to send, from `s` on.
  pub record Conserves (s s' : Outbox x Sock M) (lost : List M) : Type 0 where
    pub datagrams : laws.sent s'.sock ++ (lost ++ backlog s') ≡ laws.sent s.sock ++ backlog s
    pub ordered : IsWellFormed s'.out_queue
    pub conf : s'.out_queue.conf ≡ s.out_queue.conf

  abbrev pub Flushed : Outbox x Sock M → Res x Bool × Outbox x Sock M → Type 0
  Flushed s (ok true, s') = Conserves s s' [] × (backlog s' ≡ [])
  Flushed s (ok false, s') = Conserves s s' [] × ((m : M) × (s'.current_write ≡ some m))
  Flushed s (err e, s') =
      ((m : M) × Conserves s s' (m ∷ []))
      × ((error : IoError) × (e ≡ io error) × (is_retry error.kind ≡ false))

  send-Progress :
      (s t : Outbox x Sock M) (m : M) (r : Result IoError ℕ × Sock)
      → Conserves s t (m ∷ [])
      → t.current_write ≡ none
      → send t.sock m ≡ r
      → Progress
          (λ t'. Conserves s t' [])
          (Flushed s)
          work
          (suc (work t))
          (done
            (after_send (record t { sock = r.1 }) (handle_send_res r.0 t.current_write (len m) m)))
  unfolding after_send handle_send_res
  send-Progress s t m (ok n, sock) v e h =
      let none_left : backlog t ≡ messages (queued t.out_queue) =
        ap (λ o. waiting o t.out_queue) e in
      elim (Bool-cases (ltb n (len m))) [
        | inl part ↦
            let (same, lower) = laws.send_part t.sock sock m n h (ltb→lt _ _ part) in
            rw (part, handle_send_res)
              (
                record {
                  datagrams =
                      ap (λ l. l ++ (m ∷ messages (queued t.out_queue))) same
                      ∙ ap (λ l. laws.sent t.sock ++ (m ∷ l)) (sym none_left)
                      ∙ v.datagrams;
                  ordered = v.ordered;
                  conf = v.conf;
                },
                omega (arith, ap length none_left, lower),
              )
        | inr whole ↦
            let (longer, lower) = laws.send_whole t.sock sock m n h (ltb→le _ _ whole) in
            rw (whole, handle_send_res)
              (
                record {
                  datagrams =
                      ap (λ l. l ++ backlog t) longer
                      ∙ append_assoc (laws.sent t.sock) (m ∷ []) (backlog t)
                      ∙ v.datagrams;
                  ordered = v.ordered;
                  conf = v.conf;
                },
                omega (arith, lower),
              )
      ]
  send-Progress s t m (err error, sock) v e h =
      let same = laws.send_err t.sock sock m error h in
      let none_left : backlog t ≡ messages (queued t.out_queue) =
        ap (λ o. waiting o t.out_queue) e in
      elim (Bool-cases (is_retry error.kind)) [
        | inl retry ↦
            rw (retry, handle_send_res)
              (
                record {
                  datagrams =
                      ap (λ l. l ++ (m ∷ messages (queued t.out_queue))) same
                      ∙ ap (λ l. laws.sent t.sock ++ (m ∷ l)) (sym none_left)
                      ∙ v.datagrams;
                  ordered = v.ordered;
                  conf = v.conf;
                },
                (m, refl),
              )
        | inr fatal ↦
            rw (fatal, handle_send_res)
              (
                (
                  m,
                  record {
                    datagrams = ap (λ l. l ++ (m ∷ backlog t)) same ∙ v.datagrams;
                    ordered = v.ordered;
                    conf = v.conf;
                  },
                ),
                (error, refl, fatal),
              )
      ]

  taken-Progress :
      (s t : Outbox x Sock M) (o : Option M) (q : OutQueue x M)
      → Conserves s t []
      → Takes (backlog t) o (messages (queued q))
      → IsWellFormed q
      → q.conf ≡ t.out_queue.conf
      → Progress
          (λ t'. Conserves s t' [])
          (Flushed s)
          work
          (work t)
          (done (send_round send len (o, record t { current_write = none; out_queue = q })))
  unfolding send_round
  taken-Progress s t none q v (before, after) w conf = (
    record {
      datagrams = ap (◌++◌ (laws.sent t.sock)) (after ∙ sym before) ∙ v.datagrams;
      ordered = w;
      conf = conf ∙ v.conf;
    },
    after,
  )
  taken-Progress s t (some m) q v before w conf =
      let t' : Outbox x Sock M = record t { current_write = none; out_queue = q } in
      let r = send t.sock m in
      subst
        (λ k.
          Progress (λ t'. Conserves s t' []) (Flushed s) work k
            (done (after_send (record t' { sock = r.1 }) (handle_send_res r.0 none (len m) m))))
        (omega (arith, ap length before))
        (send-Progress s t' m r
          (record {
            datagrams = ap (◌++◌ (laws.sent t.sock)) (sym before) ∙ v.datagrams;
            ordered = w;
            conf = conf ∙ v.conf;
          })
          refl refl)

  flush_round-Progress :
      (s t : Outbox x Sock M)
      → Conserves s t []
      → Progress (λ t'. Conserves s t' []) (Flushed s) work (work t) (flush_round send len t)
  unfolding flush_round
  flush_round-Progress s t v =
      let (r, e, takes, w, conf) = take_or_next-Takes t.current_write t.out_queue v.ordered in
      rw e (taken-Progress s t r.0 r.1 v takes w conf)

  -- With a well-formed queue and more fuel than there are waiting datagrams and failed attempts to
  -- come, the loop returns and does not panic. The datagrams that the socket took whole, followed
  -- by those that wait, are then as before: none is lost, repeated or reordered. After `Ok(true)`
  -- none waits; after `Ok(false)` the one that would block is kept as the next; only an error that
  -- is not to be retried is returned, and it loses exactly the datagram that was being sent.
  pub loop-Flushed :
      (fuel : ℕ) (s : Outbox x Sock M)
      → IsWellFormed s.out_queue
      → work s < fuel
      → (r : Res x Bool × Outbox x Sock M) × (loop fuel (flush_round send len) s ≡ done r)
        × Flushed s r
  loop-Flushed fuel s w enough =
      loop_rule (λ t. Conserves s t []) (Flushed s) work (flush_round send len)
        (flush_round-Progress s) fuel s enough
        (record { datagrams = refl; ordered = w; conf = refl })
