-- ===== src/Tests/Udp.antt =====
-- Witnesses for `Inner` of src/udp.rs, over a concrete socket.
use mathlib.Core.List.{Forall₂}
use socket_collection.Base.{
  ℕ, ◌≡◌, ◌≢◌, panic, refl, List, [], ◌∷◌, Option, none, some, ok, Bool, length, done, arith, ◌*◌,
}
use socket_collection.Env.{Bytes}
use socket_collection.Error.{Res}
use socket_collection.Crypto.{EncryptContext, DecryptContext, encrypt, decrypt}
use socket_collection.Config.{Priority, default_config}
use socket_collection.OutQueue.{Instant, Clock}
use socket_collection.OutQueue.Order.{Entry, insert_entry}
use socket_collection.OutQueue.Refinement.{queued}
use socket_collection.Udp.Inbox.{deliver}
use socket_collection.Udp.Inbox.Receive.{Arrives, stops, brings}
use socket_collection.Udp.Outbox.{Outbox}
use socket_collection.Udp.Outbox.Flush.{Flushed}
use socket_collection.Udp.Inner.{
  Inner, new, recv_bytes, recv_pair, send_pair, pair_len, with_outbox, with_outbox_2, read,
  read_frm, write, write_to,
}
use socket_collection.Udp.Inner.Read.{
  read_frm_times, read_frm_times-Arrives, read_times, read_times-Arrives, read_frm_total,
}
use socket_collection.Udp.Inner.Safety.{IsSound}
use socket_collection.Udp.Inner.Reach.{created, UdpReach-ne-panic}
use socket_collection.Udp.Inner.Write.{Drops, udp_write-Flushed, udp_write_to-Flushed}
use socket_collection.Tests.World.{crates, messages}
use socket_collection.Tests.Streams.{blocked}
use socket_collection.Tests.Datagrams.{
  Port, port, ports, send-SendLaws, send_pair-SendLaws, recv-RecvLaws, recv_pair-RecvLaws,
}

-- A socket without encryption over this port, with one datagram in each queue.
abbrev socket_on : Port → Inner ports
socket_on sock = record {
  sock = sock;
  peer = none;
  read_buffer = [];
  read_buffer_2 = [];
  out_queue = record { inner = (3, (0, 8 ∷ []) ∷ []) ∷ []; conf = default_config crates };
  current_write = none;
  out_queue2 = record { inner = (3, (0, (8 ∷ [], 5)) ∷ []) ∷ []; conf = default_config crates };
  current_write_2 = none;
  enc_ctx = EncryptContext.null;
  dec_ctx = DecryptContext.null;
}

-- Three datagrams, one of them empty.
abbrev arriving : Port
arriving = port ((1 ∷ 2 ∷ [], 5) ∷ ([], 6) ∷ (3 ∷ [], 7) ∷ []) 1 [] []

abbrev emptied : Port
emptied = port [] 1 [] []

arriving-recv :
    Arrives (recv_bytes ports) 3 arriving ((1 ∷ 2 ∷ []) ∷ [] ∷ (3 ∷ []) ∷ []) blocked emptied
arriving-recv =
    brings (1 ∷ 2 ∷ []) refl
      (brings [] refl (brings (3 ∷ []) refl (stops emptied emptied blocked refl)))

arriving-recv_from :
    Arrives
      (recv_pair ports)
      3
      arriving
      ((1 ∷ 2 ∷ [], 5) ∷ ([], 6) ∷ (3 ∷ [], 7) ∷ [])
      blocked
      emptied
arriving-recv_from =
    brings (1 ∷ 2 ∷ [], 5) refl
      (brings ([], 6) refl (brings (3 ∷ [], 7) refl (stops emptied emptied blocked refl)))

read_frm_times-Arrives_example :
    read_frm_times messages 2 4 (socket_on arriving)
    ≡ done (ok (some (1 ∷ 2 ∷ [], 5)) ∷ ok (some (3 ∷ [], 7)) ∷ [], socket_on emptied)
unfolding decrypt
read_frm_times-Arrives_example =
    read_frm_times-Arrives messages 4 (socket_on arriving) (1 ∷ 2 ∷ [], 5) ((3 ∷ [], 7) ∷ []) refl
      arriving-recv_from refl (Forall₂.cons (refl, refl) (Forall₂.cons (refl, refl) Forall₂.nil))
      (omega arith)

read_times-Arrives_example :
    read_times messages 2 4 (socket_on arriving)
    ≡ done (ok (some (1 ∷ 2 ∷ [])) ∷ ok (some (3 ∷ [])) ∷ [], socket_on emptied)
unfolding deliver decrypt
read_times-Arrives_example =
    read_times-Arrives messages 4 (socket_on arriving) (1 ∷ 2 ∷ []) ((3 ∷ []) ∷ []) refl
      arriving-recv refl refl (omega arith)

read_frm_total_example :
    ((r : Res crates (Option Bytes) × Inner ports) × (read messages 4 (socket_on arriving)
        ≡ done r))
    × ((r : Res crates (Option (Bytes × ℕ)) × Inner ports) × (read_frm messages 4
            (socket_on arriving)
          ≡ done r))
read_frm_total_example =
    read_frm_total messages recv-RecvLaws recv_pair-RecvLaws 4 (socket_on arriving) (omega arith)
      (omega arith)

udp_write-Flushed_example :
    let s = socket_on arriving in
    let clock : Clock = λ _. 100 * 1_000_000_000 in
    (r : Res crates Bool × Outbox crates Port Bytes) × (kept : List (Entry Bytes)) × (dropped : List
      (Entry Bytes))
    × (t : Outbox crates Port Bytes) × (write messages 5 s 0 clock 7 (some (9 ∷ [], 0))
        ≡ done (with_outbox s r))
    × Drops s.out_queue clock kept dropped
    × (queued t.out_queue
        ≡ insert_entry (record { priority = 0; queued_at = 7; msg = 9 ∷ [] }) kept)
    × (t.current_write ≡ s.current_write)
    × (t.sock ≡ s.sock)
    × Flushed ports.send length send-SendLaws t r
unfolding encrypt
udp_write-Flushed_example =
    udp_write-Flushed messages send-SendLaws 5 (socket_on arriving) 0 (λ _. 100 * 1_000_000_000) 7
      (9 ∷ []) 0 (9 ∷ []) refl (omega arith) (omega arith)

udp_write_to-Flushed_example :
    let s = socket_on arriving in
    let clock : Clock = λ _. 100 * 1_000_000_000 in
    (r : Res crates Bool × Outbox crates Port (Bytes × ℕ)) × (kept : List (Entry (Bytes × ℕ)))
    × (dropped : List (Entry (Bytes × ℕ))) × (t : Outbox crates Port (Bytes × ℕ)) × (write_to
          messages 5 s 0 clock 7
          (some (9 ∷ [], 4, 0))
        ≡ done (with_outbox_2 s r))
    × Drops s.out_queue2 clock kept dropped
    × (queued t.out_queue
        ≡ insert_entry (record { priority = 0; queued_at = 7; msg = (9 ∷ [], 4) }) kept)
    × (t.current_write ≡ s.current_write_2)
    × (t.sock ≡ s.sock)
    × Flushed (send_pair ports) pair_len send_pair-SendLaws t r
unfolding encrypt
udp_write_to-Flushed_example =
    udp_write_to-Flushed messages send_pair-SendLaws 5 (socket_on arriving) 0
      (λ _. 100 * 1_000_000_000) 7 (9 ∷ []) 4 0 (9 ∷ []) refl (omega arith) (omega arith)

UdpReach-ne-panic_example :
    let s = new {api = ports} arriving (default_config crates) in
    IsSound s
    × ((fuel : ℕ) → read messages fuel s ≢ panic)
    × ((fuel : ℕ) → read_frm messages fuel s ≢ panic)
    × ((fuel : ℕ) (nonce : ℕ) (clock : Clock) (now : Instant) (msg : Option (Bytes × Priority))
        → write messages fuel s nonce clock now msg ≢ panic)
    × ((fuel : ℕ) (nonce : ℕ) (clock : Clock) (now : Instant) (msg : Option (Bytes × ℕ × Priority))
        → write_to messages fuel s nonce clock now msg ≢ panic)
UdpReach-ne-panic_example = UdpReach-ne-panic messages (created arriving (default_config crates))
