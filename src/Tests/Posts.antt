-- ===== src/Tests/Posts.antt =====
-- Witnesses for whole sessions of src/udp.rs, over a concrete socket.
use socket_collection.Base.{
  ◌≡◌, refl, List, [], ◌∷◌, map, none, some, ok, true, length, done, arith,
}
use socket_collection.Base.Loop.{loop}
use socket_collection.Env.{Bytes}
use socket_collection.Crypto.{EncryptContext, DecryptContext, encrypt, both_null}
use socket_collection.Config.{default_config}
use socket_collection.OutQueue.{
  Clock, remove, pop_first, next_msg, take_or_next, remove_all, expired_queues, push_at, push_entry,
  drop_expired, skip_while,
}
use socket_collection.OutQueue.Order.{Entry}
use socket_collection.OutQueue.Fates.{Survives}
use socket_collection.Udp.Handlers.{handle_send_res}
use socket_collection.Udp.Outbox.{after_send, send_round, flush_round}
use socket_collection.Udp.Inbox.Receive.{Arrives, stops, brings}
use socket_collection.Udp.Inner.{Inner, recv_bytes, flush_write_until_would_block, write}
use socket_collection.Udp.Inner.Write.{write-enqueued, write-none}
use socket_collection.Udp.Inner.Read.{read_times}
use socket_collection.Udp.Session.{IsSealed, Session, opened, wrote, polled}
use socket_collection.Udp.Session.Network.{carried}
use socket_collection.Udp.Session.Received.{Session-read_times}
use socket_collection.Tests.World.{crates, keys, messages, messages-RoundTrips}
use socket_collection.Tests.Streams.{blocked}
use socket_collection.Tests.Datagrams.{Port, port, ports, send-SendLaws}

-- A socket without encryption over this port, with nothing queued.
abbrev opened_on : Port → Inner ports
opened_on sock = record {
  sock = sock;
  peer = some 2;
  read_buffer = [];
  read_buffer_2 = [];
  out_queue = record { inner = []; conf = default_config crates };
  current_write = none;
  out_queue2 = record { inner = []; conf = default_config crates };
  current_write_2 = none;
  enc_ctx = EncryptContext.null;
  dec_ctx = DecryptContext.null;
}

abbrev early : Clock
early = λ _. 0

abbrev first : Entry Bytes
first = record { priority = 1; queued_at = 7; msg = 1 ∷ 2 ∷ [] }

abbrev second : Entry Bytes
second = record { priority = 0; queued_at = 7; msg = 3 ∷ [] }

first-IsSealed : IsSealed messages EncryptContext.null first.msg first.msg
unfolding encrypt
first-IsSealed = record { nonce = 0; sealed = refl; nonempty = omega arith }

second-IsSealed : IsSealed messages EncryptContext.null second.msg second.msg
unfolding encrypt
second-IsSealed = record { nonce = 0; sealed = refl; nonempty = omega arith }

wrote_first :
    write messages 10 (opened_on (port [] 3 [] [])) 0 early 7 (some (first.msg, 1))
    ≡ done (ok true, opened_on (port [] 2 (first.msg ∷ []) []))
unfolding encrypt drop_expired remove_all expired_queues skip_while push_at push_entry
    flush_write_until_would_block flush_round send_round after_send handle_send_res loop
    take_or_next next_msg pop_first remove
wrote_first =
    write-enqueued messages 10 (opened_on (port [] 3 [] [])) 0 early 7 first.msg 1 first.msg refl

wrote_second :
    write messages 10 (opened_on (port [] 2 (first.msg ∷ []) [])) 0 early 7 (some (second.msg, 0))
    ≡ done (ok true, opened_on (port [] 1 (first.msg ∷ second.msg ∷ []) []))
unfolding encrypt drop_expired remove_all expired_queues skip_while push_at push_entry
    flush_write_until_would_block flush_round send_round after_send handle_send_res loop
    take_or_next next_msg pop_first remove
wrote_second =
    write-enqueued messages 10 (opened_on (port [] 2 (first.msg ∷ []) [])) 0 early 7 second.msg 0
      second.msg refl

polled_last :
    write messages 10 (opened_on (port [] 1 (first.msg ∷ second.msg ∷ []) [])) 0 early 7 none
    ≡ done (ok true, opened_on (port [] 1 (first.msg ∷ second.msg ∷ []) []))
unfolding drop_expired remove_all expired_queues skip_while flush_write_until_would_block
    flush_round send_round loop take_or_next next_msg pop_first
polled_last =
    write-none messages 10 (opened_on (port [] 1 (first.msg ∷ second.msg ∷ []) [])) 0 early 7

two_datagrams :
    Session messages send-SendLaws
      (opened_on (port [] 3 [] []))
      (first ∷ second ∷ [])
      (opened_on (port [] 1 (first.msg ∷ second.msg ∷ []) []))
unfolding first-IsSealed second-IsSealed
two_datagrams =
    polled true 10 0 early 7
      (wrote true 10 early second second.msg second-IsSealed
        (wrote true 10 early first first.msg first-IsSealed opened wrote_first) wrote_second)
      polled_last

-- The second datagram comes first, then both come again, and a third is lost.
abbrev arriving : Port
arriving = port ((3 ∷ [], 1) ∷ (1 ∷ 2 ∷ [], 1) ∷ (3 ∷ [], 1) ∷ []) 1 [] []

abbrev emptied : Port
emptied = port [] 1 [] []

arriving-Arrives :
    Arrives (recv_bytes ports) 3 arriving (second.msg ∷ first.msg ∷ second.msg ∷ []) blocked emptied
arriving-Arrives =
    brings (3 ∷ []) refl
      (brings (1 ∷ 2 ∷ []) refl (brings (3 ∷ []) refl (stops emptied emptied blocked refl)))

Session-read_times_example :
    (us : List (Entry Bytes)) × Survives
      (default_config crates).msg_drop_priority
      us
      (first ∷ second ∷ [])
    × (read_times messages (length (carried (1 ∷ 0 ∷ 1 ∷ []) us)) 4 (opened_on arriving)
        ≡ done (
          map (λ v. ok (some v)) (map (λ m. m.msg) (carried (1 ∷ 0 ∷ 1 ∷ []) us)),
          opened_on emptied,
        ))
Session-read_times_example =
    Session-read_times keys messages messages-RoundTrips send-SendLaws (first ∷ second ∷ [])
      (opened_on (port [] 3 [] [])) (opened_on (port [] 1 (first.msg ∷ second.msg ∷ []) []))
      (opened_on arriving) refl refl tt refl two_datagrams refl both_null refl (1 ∷ 0 ∷ 1 ∷ []) 4
      (omega arith) arriving-Arrives refl (omega arith)
