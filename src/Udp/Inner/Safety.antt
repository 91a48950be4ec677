-- ===== src/Udp/Inner/Safety.antt =====
-- No sequence of calls of `Inner` in src/udp.rs panics, whatever the socket and the crates do.
use socket_collection.Base.{ℕ, List, [], ◌∷◌, Option, none, some, inl, inr, Result-cases}
use socket_collection.Base.Loop.{Safe, bind-Safe}
use socket_collection.Env.{Crates, Codec, Bytes}
use socket_collection.Crypto.{encrypt, decrypt}
use socket_collection.Config.{Priority}
use socket_collection.OutQueue.{Instant, Clock}
use socket_collection.OutQueue.Refinement.{IsWellFormed, queued-push_at}
use socket_collection.OutQueue.Expiry.{drop_expired-queued}
use socket_collection.Mio.{UdpApi}
use socket_collection.Udp.Handlers.{bytes_is_empty, pair_is_empty}
use socket_collection.Udp.Inbox.Safety.{Anything, recv-Safe}
use socket_collection.Udp.Outbox.Safety.{LeavesOrderly, loop-LeavesOrderly}
use socket_collection.Udp.Inner.{
  Inner, recv_bytes, recv_pair, send_pair, pair_len, decrypt_pair, outbox, outbox_2,
  flush_write_until_would_block, flush_write_to_until_would_block, read_from, read, read_frm_from,
  read_frm, write_message, write, write_message_to, write_to,
}

module _ {x : Crates} {api : UdpApi x} where
  -- Both queues of the socket are well-formed.
  abbrev pub IsSound : Inner api → Type 0
  IsSound s = IsWellFormed s.out_queue × IsWellFormed s.out_queue2

  abbrev pub LeavesSound {ℓ} : {A : Type ℓ} → A × Inner api → Type 0
  LeavesSound r = IsSound r.1

  flush-Safe :
      (fuel : ℕ) (s : Inner api)
      → IsSound s
      → Safe LeavesSound (flush_write_until_would_block fuel s)
  unfolding flush_write_until_would_block
  flush-Safe fuel s (w, w_2) =
      bind-Safe LeavesOrderly LeavesSound _ _ (loop-LeavesOrderly api.send _ fuel (outbox s) w)
        (λ r w'. (w', w_2))

  flush_to-Safe :
      (fuel : ℕ) (s : Inner api)
      → IsSound s
      → Safe LeavesSound (flush_write_to_until_would_block fuel s)
  unfolding flush_write_to_until_would_block
  flush_to-Safe fuel s (w, w_2) =
      bind-Safe LeavesOrderly LeavesSound _ _
        (loop-LeavesOrderly (send_pair api) pair_len fuel (outbox_2 s) w_2) (λ r w'. (w, w'))

module _ {x : Crates} {api : UdpApi x} {T : Type 0} (c : Codec x T) where
  read_from-Safe :
      (fuel : ℕ) (s : Inner api) (buffer : List Bytes)
      → IsSound s
      → Safe LeavesSound (read_from c fuel s buffer)
  unfolding read_from
  read_from-Safe fuel s [] w =
      bind-Safe Anything LeavesSound _ _
        (recv-Safe bytes_is_empty (decrypt c s.dec_ctx) (recv_bytes api) fuel (s.sock, []))
        (λ r u. w)
  read_from-Safe fuel s (b ∷ buffer) w = w

  read_frm_from-Safe :
      (fuel : ℕ) (s : Inner api) (buffer : List (Bytes × x.SocketAddr))
      → IsSound s
      → Safe LeavesSound (read_frm_from c fuel s buffer)
  unfolding read_frm_from
  read_frm_from-Safe fuel s [] w =
      bind-Safe Anything LeavesSound _ _
        (recv-Safe pair_is_empty (decrypt_pair c s.dec_ctx) (recv_pair api) fuel (s.sock, []))
        (λ r u. w)
  read_frm_from-Safe fuel s (m ∷ buffer) w = w

  pub read-Safe : (fuel : ℕ) (s : Inner api) → IsSound s → Safe LeavesSound (read c fuel s)
  unfolding read
  read-Safe fuel s w = read_from-Safe fuel s s.read_buffer w

  pub read_frm-Safe : (fuel : ℕ) (s : Inner api) → IsSound s → Safe LeavesSound (read_frm c fuel s)
  unfolding read_frm
  read_frm-Safe fuel s w = read_frm_from-Safe fuel s s.read_buffer_2 w

  write_message-Safe :
      (fuel : ℕ) (s : Inner api) (nonce : x.Nonce) (now : Instant) (msg : Option (T × Priority))
      → IsSound s
      → Safe LeavesSound (write_message c fuel s nonce now msg)
  unfolding write_message
  write_message-Safe fuel s nonce now none w = flush-Safe fuel s w
  write_message-Safe fuel s nonce now (some (msg, priority)) (w, w_2) =
      elim (Result-cases (encrypt c s.enc_ctx nonce msg)) [
        | inl (bytes, h) ↦
            rw (h, write_message)
              (flush-Safe fuel _ ((queued-push_at s.out_queue now bytes priority w).0, w_2))
        | inr (e, h) ↦ rw (h, write_message) (w, w_2)
      ]

  write_message_to-Safe :
      (fuel : ℕ) (s : Inner api) (nonce : x.Nonce) (now : Instant)
      → (msg : Option (T × x.SocketAddr × Priority)) → IsSound s
      → Safe LeavesSound (write_message_to c fuel s nonce now msg)
  unfolding write_message_to
  write_message_to-Safe fuel s nonce now none w = flush_to-Safe fuel s w
  write_message_to-Safe fuel s nonce now (some (msg, peer, priority)) (w, w_2) =
      elim (Result-cases (encrypt c s.enc_ctx nonce msg)) [
        | inl (bytes, h) ↦
            rw (h, write_message_to)
              (flush_to-Safe fuel _
                (w, (queued-push_at s.out_queue2 now (bytes, peer) priority w_2).0))
        | inr (e, h) ↦ rw (h, write_message_to) (w, w_2)
      ]

  pub write-Safe :
      (fuel : ℕ) (s : Inner api) (nonce : x.Nonce) (clock : Clock) (now : Instant)
      → (msg : Option (T × Priority)) → IsSound s
      → Safe LeavesSound (write c fuel s nonce clock now msg)
  unfolding write
  write-Safe fuel s nonce clock now msg (w, w_2) =
      write_message-Safe fuel _ nonce now msg ((drop_expired-queued s.out_queue clock w).3, w_2)

  pub write_to-Safe :
      (fuel : ℕ) (s : Inner api) (nonce : x.Nonce) (clock : Clock) (now : Instant)
      → (msg : Option (T × x.SocketAddr × Priority)) → IsSound s
      → Safe LeavesSound (write_to c fuel s nonce clock now msg)
  unfolding write_to
  write_to-Safe fuel s nonce clock now msg (w, w_2) =
      write_message_to-Safe fuel _ nonce now msg (w, (drop_expired-queued s.out_queue2 clock w_2).3)
