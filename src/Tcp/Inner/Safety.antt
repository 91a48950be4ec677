-- ===== src/Tcp/Inner/Safety.antt =====
-- No sequence of calls of `Inner` in src/tcp.rs makes `write` panic, whatever the stream and the
-- crates do.
use socket_collection.Base.{
  ℕ, ◌≡◌, ◌≢◌, refl, subst, Result-cases, [], ◌∷◌, Bool, Bool-cases, true, false, inl, inr, Option,
  none, some, Result, ok, err, done, panic,
}
use socket_collection.Base.Loop.{loop-Safe, Safe, Safe-mono, Keeps}
use socket_collection.Env.{Crates, Codec, Bytes}
use socket_collection.Error.{IoError, Res, is_retry}
use socket_collection.Crypto.{EncryptContext, DecryptContext}
use socket_collection.Config.{SocketConfig, Priority}
use socket_collection.OutQueue.{Instant, Clock}
use socket_collection.OutQueue.Refinement.{IsWellFormed, queued, new-IsWellFormed, queued-push_at}
use socket_collection.OutQueue.Expiry.{drop_expired-queued}
use socket_collection.Mio.{TcpApi}
use socket_collection.Tcp.Frame.{serialize_with_len}
use socket_collection.Tcp.Inner.{
  Inner, new_with_conf, set_encrypt_ctx, set_decrypt_ctx, flush_write_until_would_block,
  enqueue_data, flush_enqueued, write_message, write, with_reader, at_eof, after_read, read_round,
  read_more, read,
}
use socket_collection.Tcp.Inner.Leaves.{LeavesAfter, flush-Leaves}

module _ {x : Crates} {api : TcpApi x} where
  -- The queue of the socket is well-formed.
  abbrev pub IsSound : Inner api → Type 0
  IsSound s = IsWellFormed s.out_queue

  abbrev pub LeavesSound {ℓ} : {A : Type ℓ} → A × Inner api → Type 0
  LeavesSound r = IsSound r.1

  flush-Safe :
      (fuel : ℕ) (s : Inner api)
      → IsSound s
      → Safe LeavesSound (flush_write_until_would_block fuel s)
  flush-Safe fuel s w =
      Safe-mono (LeavesAfter (queued s.out_queue)) LeavesSound _ (λ r h. h.0)
        (flush-Leaves fuel s w)

module _ {x : Crates} {api : TcpApi x} {T : Type 0} (c : Codec x T) (u32 : Codec x ℕ) where
  flush_enqueued-Safe :
      (fuel : ℕ) (r : Res x (Unit {0}) × Inner api)
      → IsSound r.1
      → Safe LeavesSound (flush_enqueued c u32 fuel r)
  unfolding flush_enqueued
  flush_enqueued-Safe fuel (ok u, s) w = flush-Safe fuel s w
  flush_enqueued-Safe fuel (err e, s) w = w

  enqueue_data-IsSound :
      (s : Inner api) (nonces : x.Nonce × x.Nonce) (now : Instant) (priority : Priority) (msg : T)
      → IsSound s
      → IsSound (enqueue_data c u32 s nonces now priority msg).1
  unfolding enqueue_data
  enqueue_data-IsSound s nonces now priority msg w =
      elim (Result-cases (serialize_with_len c u32 s.enc_ctx nonces msg)) [
        | inl (buf, h) ↦ rw (h, enqueue_data) (queued-push_at s.out_queue now buf priority w).0
        | inr (e, h) ↦ rw (h, enqueue_data) w
      ]

  write-Safe :
      (fuel : ℕ) (s : Inner api) (nonces : x.Nonce × x.Nonce) (clock : Clock) (now : Instant)
      → (msg : Option (T × Priority)) → IsSound s
      → Safe LeavesSound (write c u32 fuel s nonces clock now msg)
  unfolding write write_message
  write-Safe fuel s nonces clock now none w =
      flush-Safe fuel _ (drop_expired-queued s.out_queue clock w).3
  write-Safe fuel s nonces clock now (some (msg, p)) w =
      flush_enqueued-Safe fuel _
        (enqueue_data-IsSound _ nonces now p msg (drop_expired-queued s.out_queue clock w).3)

  at_eof-IsSound : (r : Res x (Option T) × Inner api) → IsSound r.1 → IsSound (at_eof c u32 r).1
  unfolding at_eof
  at_eof-IsSound (ok none, s) w = w
  at_eof-IsSound (ok (some v), s) w = w
  at_eof-IsSound (err e, s) w = w

  after_read-Keeps :
      (s : Inner api) (flag : Bool) (r : Result IoError Bytes × api.Stream)
      → IsSound s
      → Keeps (λ t. IsSound t.0) LeavesSound (after_read c u32 (s, flag) r)
  unfolding after_read with_reader
  after_read-Keeps s true (ok [], stream) w = at_eof-IsSound _ w
  after_read-Keeps s false (ok [], stream) w = w
  after_read-Keeps s flag (ok (b ∷ bs), stream) w = w
  after_read-Keeps s flag (err e, stream) w = elim (Bool-cases (is_retry e.kind)) [
    | inl retry ↦ elim (Bool-cases flag) [
      | inl something ↦ rw (retry, something, after_read) w
      | inr nothing ↦ rw (retry, nothing, after_read) w
    ]
    | inr fatal ↦ rw (fatal, after_read) w
  ]

  read_more-Safe :
      (fuel : ℕ) (r : Res x (Option T) × Inner api)
      → IsSound r.1
      → Safe LeavesSound (read_more c u32 fuel r)
  unfolding read_more read_round
  read_more-Safe fuel (ok none, s) w =
      loop-Safe (λ t. IsSound t.0) LeavesSound (read_round c u32)
        (λ t v. after_read-Keeps t.0 t.1 _ v) fuel (s, false) w
  read_more-Safe fuel (ok (some v), s) w = w
  read_more-Safe fuel (err e, s) w = w

  read-Safe : (fuel : ℕ) (s : Inner api) → IsSound s → Safe LeavesSound (read c u32 fuel s)
  unfolding read with_reader
  read-Safe fuel s w = read_more-Safe fuel _ w

  -- The states that calls with messages of one type lead to.
  pub data Reach : Inner api → Type 0 where
    created : (stream : api.Stream) (conf : SocketConfig x) → Reach (new_with_conf stream conf)
    encrypts : {s : Inner api} (ctx : EncryptContext x) → Reach s → Reach (set_encrypt_ctx s ctx)
    decrypts : {s : Inner api} (ctx : DecryptContext x) → Reach s → Reach (set_decrypt_ctx s ctx)
    reads :
        {s s' : Inner api} (fuel : ℕ) (r : Res x (Option T))
        → Reach s
        → read c u32 fuel s ≡ done (r, s')
        → Reach s'
    writes :
        {s s' : Inner api} (fuel : ℕ) (nonces : x.Nonce × x.Nonce) (clock : Clock) (now : Instant)
        → (msg : Option (T × Priority)) (r : Res x Bool) → Reach s
        → write c u32 fuel s nonces clock now msg ≡ done (r, s')
        → Reach s'

  Reach-IsSound : {s : Inner api} → Reach s → IsSound s
  unfolding new_with_conf set_encrypt_ctx set_decrypt_ctx
  Reach-IsSound (created stream conf) = (new-IsWellFormed _ conf refl).0
  Reach-IsSound (encrypts ctx d) = Reach-IsSound d
  Reach-IsSound (decrypts ctx d) = Reach-IsSound d
  Reach-IsSound (reads {s = s} fuel r d e) =
      subst (Safe LeavesSound) e (read-Safe fuel s (Reach-IsSound d))
  Reach-IsSound (writes {s = s} fuel nonces clock now msg r d e) =
      subst (Safe LeavesSound) e (write-Safe fuel s nonces clock now msg (Reach-IsSound d))

  -- In every state that creation, changes of the contexts, reads and writes lead to, whatever the
  -- stream, the serialisation and the encryption answer, the queue is well-formed, and `write`
  -- does not panic: the `unwrap!` of `next_msg` never meets an empty queue, on any fuel.
  pub Reach-ne-panic :
      {s : Inner api}
      → Reach s
      → IsSound s
        × ((fuel : ℕ) (nonces : x.Nonce × x.Nonce) (clock : Clock) (now : Instant)
              (msg : Option (T × Priority))
            → write c u32 fuel s nonces clock now msg ≢ panic)
  Reach-ne-panic {s} d = (
    Reach-IsSound d,
    λ fuel nonces clock now msg e.
        subst (Safe LeavesSound) e (write-Safe fuel s nonces clock now msg (Reach-IsSound d)),
  )
