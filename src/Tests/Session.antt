-- ===== src/Tests/Session.antt =====
-- Witnesses for whole sessions of src/tcp.rs, over a pipe.
use socket_collection.Base.{
  ◌≡◌, refl, List, [], ◌∷◌, ◌++◌, none, some, ok, true, done, arith, map, length,
}
use socket_collection.Base.Loop.{loop}
use socket_collection.Crypto.{enc_encrypted_size_len, both_null}
use socket_collection.Config.{default_config}
use socket_collection.OutQueue.{Clock, remove, pop_first, next_msg, take_or_next}
use socket_collection.Env.{Bytes}
use socket_collection.OutQueue.Order.{Entry}
use socket_collection.OutQueue.Fates.{Survives}
use socket_collection.Tcp.Inner.{
  Inner, next_data, after_write, write_round, flush_round, flush_write_until_would_block, write,
}
use socket_collection.Tcp.Inner.Receive.{Receives, failed, fails, reads}
use socket_collection.Tcp.Delivery.{delivered}
use socket_collection.Tcp.Inner.Write.{write-enqueued, write-none}
use socket_collection.Tcp.Session.{Session, opened, wrote, polled}
use socket_collection.Tcp.Session.Calls.{IsFramed}
use socket_collection.OutQueue.{
  remove_all, expired_queues, push_at, push_entry, drop_expired, skip_while,
}
use socket_collection.Tests.World.{
  crates, keys, messages, messages-RoundTrips, u32, u32-RoundTrips, u32-FixedSizes,
}
use socket_collection.Tests.Streams.{Pipe, pipe, blocked, streams, streams-SendLaws}
use socket_collection.Tests.Frames.{frame_3, frame_3-sent}
use socket_collection.Tcp.Inner.Reads.{inner_reads}
use socket_collection.Tcp.Session.Received.{Session-inner_reads}
use socket_collection.Tests.Tcp.{socket_on}

-- Two messages are written to a socket that has sent nothing, and it is polled at the end.
abbrev opened_on : Pipe → Inner streams
opened_on stream = record (socket_on stream) {
  out_queue = record { inner = []; conf = default_config crates };
}

abbrev early : Clock
early = λ _. 0

wrote_first :
    write messages u32 40 (opened_on (pipe [] 20 [])) (0, 0) early 7 (some (1 ∷ 2 ∷ 3 ∷ [], 1))
    ≡ done (ok true, opened_on (pipe [] 13 frame_3))
unfolding drop_expired remove_all expired_queues skip_while push_at push_entry
    flush_write_until_would_block flush_round write_round after_write next_data loop take_or_next
    next_msg pop_first remove
wrote_first =
    write-enqueued messages u32 streams-SendLaws 40 (opened_on (pipe [] 20 [])) (0, 0) early 7
      (1 ∷ 2 ∷ 3 ∷ []) 1 frame_3 frame_3-sent

wrote_second :
    write messages u32 40 (opened_on (pipe [] 13 frame_3)) (0, 0) early 7 (some (1 ∷ 2 ∷ 3 ∷ [], 0))
    ≡ done (ok true, opened_on (pipe [] 6 (frame_3 ++ frame_3)))
unfolding drop_expired remove_all expired_queues skip_while push_at push_entry
    flush_write_until_would_block flush_round write_round after_write next_data loop take_or_next
    next_msg pop_first remove
wrote_second =
    write-enqueued messages u32 streams-SendLaws 40 (opened_on (pipe [] 13 frame_3)) (0, 0) early 7
      (1 ∷ 2 ∷ 3 ∷ []) 0 frame_3 frame_3-sent

polled_last :
    write messages u32 40 (opened_on (pipe [] 6 (frame_3 ++ frame_3))) (0, 0) early 7 none
    ≡ done (ok true, opened_on (pipe [] 6 (frame_3 ++ frame_3)))
unfolding drop_expired remove_all expired_queues skip_while flush_write_until_would_block
    flush_round write_round next_data loop take_or_next next_msg pop_first
polled_last =
    write-none messages u32 streams-SendLaws 40 (opened_on (pipe [] 6 (frame_3 ++ frame_3))) (0, 0)
      early 7

abbrev first : Entry Bytes
first = record { priority = 1; queued_at = 7; msg = 1 ∷ 2 ∷ 3 ∷ [] }

abbrev second : Entry Bytes
second = record { priority = 0; queued_at = 7; msg = 1 ∷ 2 ∷ 3 ∷ [] }

frame_3-IsFramed : IsFramed messages u32 10 (default_config crates).enc_ctx (1 ∷ 2 ∷ 3 ∷ []) frame_3
unfolding enc_encrypted_size_len
frame_3-IsFramed = record {
  nonces = (0, 0);
  framed = frame_3-sent;
  nonempty = omega arith;
  limited = omega arith;
  fits = omega arith;
}

two_messages :
    Session messages u32 10 streams-SendLaws
      (opened_on (pipe [] 20 []))
      (first ∷ second ∷ [])
      (opened_on (pipe [] 6 (frame_3 ++ frame_3)))
unfolding frame_3-IsFramed
two_messages =
    polled true 40 (0, 0) early 7
      (wrote true 40 early second frame_3 frame_3-IsFramed
        (wrote true 40 early first frame_3 frame_3-IsFramed opened wrote_first) wrote_second)
      polled_last

-- The receiver's stream gives the bytes in three pieces.
abbrev pieces : Pipe
pieces = pipe ((3 ∷ 0 ∷ 0 ∷ []) ∷ (0 ∷ 1 ∷ 2 ∷ 3 ∷ 3 ∷ 0 ∷ []) ∷ (0 ∷ 0 ∷ 1 ∷ 2 ∷ 3 ∷ []) ∷ []) 0 []

pieces-Receives : Receives streams 3 pieces (frame_3 ++ frame_3) (failed blocked) (pipe [] 0 [])
pieces-Receives = reads 3 (0 ∷ 0 ∷ []) refl (
    reads 0 (1 ∷ 2 ∷ 3 ∷ 3 ∷ 0 ∷ []) refl
      (reads 0 (0 ∷ 1 ∷ 2 ∷ 3 ∷ []) refl (fails (pipe [] 0 []) (pipe [] 0 []) blocked refl)))

Session-inner_reads_example :
    (us : List (Entry Bytes)) × Survives
      (default_config crates).msg_drop_priority
      us
      (first ∷ second ∷ [])
    × (inner_reads messages u32 4 (length us) (opened_on pieces)
        ≡ done (delivered messages u32 (map (λ m. m.msg) us), opened_on (pipe [] 0 [])))
Session-inner_reads_example =
    Session-inner_reads messages u32 10 keys messages-RoundTrips u32-RoundTrips u32-FixedSizes
      streams-SendLaws (first ∷ second ∷ []) (opened_on (pipe [] 20 []))
      (opened_on (pipe [] 6 (frame_3 ++ frame_3))) (opened_on pieces) refl refl tt refl two_messages
      refl (omega arith) refl both_null refl refl 4 pieces-Receives refl (omega arith)
