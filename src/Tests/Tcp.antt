-- ===== src/Tests/Tcp.antt =====
-- Witnesses for `Inner` of src/tcp.rs, over a pipe.
use socket_collection.Base.{
  ℕ, ◌≡◌, ◌≢◌, refl, List, [], ◌∷◌, Option, none, some, ok, Bool, true, done, panic, arith, ◌*◌,
}
use socket_collection.Base.Loop.{loop}
use socket_collection.Env.{Bytes}
use socket_collection.Error.{Res}
use socket_collection.Crypto.{enc_encrypted_size_len, dec_encrypted_size_len, both_null}
use socket_collection.Config.{Priority, default_config}
use socket_collection.OutQueue.{Instant, Clock, remove, pop_first, next_msg, take_or_next}
use socket_collection.OutQueue.Order.{Entry, insert_entry}
use socket_collection.OutQueue.Refinement.{queued}
use socket_collection.Tcp.Reader.{put_buf, try_read}
use socket_collection.Tcp.Reader.Framed.{try_read-short}
use socket_collection.Tcp.Inner.{
  Inner, new_with_conf, next_data, after_write, write_round, flush_round,
  flush_write_until_would_block, write, read,
}
use socket_collection.Tcp.Inner.Flush.{Flushed, flush-Flushed}
use socket_collection.Tcp.Inner.Write.{Drops, write-Flushed}
use socket_collection.Tcp.Inner.Receive.{
  Receives, failed, fails, reads, conclude, read-Receives, read_total,
}
use socket_collection.Tcp.Inner.Safety.{IsSound, created, Reach-ne-panic}
use socket_collection.Tcp.Delivery.{Frames, frame, no_frames, try_reads, delivered, flush-try_reads}
use socket_collection.Tests.World.{
  crates, keys, messages, messages-RoundTrips, u32, u32-RoundTrips, u32-FixedSizes,
}
use socket_collection.Tests.Streams.{
  Pipe, pipe, blocked, streams, streams-SendLaws, streams-ReadLaws,
}
use socket_collection.Tests.Frames.{plain, null_ctx, frame_3, frame_3-sent}

-- A socket without encryption over this pipe, with nothing begun and one frame in its queue.
abbrev pub socket_on : Pipe → Inner streams
socket_on stream = record {
  stream = stream;
  msg_reader = plain 10 0 [];
  out_queue = record { inner = (1, (0, frame_3) ∷ []) ∷ []; conf = default_config crates };
  current_write = none;
  enc_ctx = null_ctx;
}

-- Only five of the seven bytes find room.
flush-Flushed_example :
    (r : Res crates Bool × Inner streams) × (flush_write_until_would_block 20
        (socket_on (pipe [] 5 []))
      ≡ done r)
    × Flushed streams-SendLaws (socket_on (pipe [] 5 [])) r
flush-Flushed_example =
    flush-Flushed streams-SendLaws 20 (socket_on (pipe [] 5 [])) (omega arith) (omega arith)

write-Flushed_example :
    let s = socket_on (pipe [] 9 []) in
    let clock : Clock = λ _. 100 * 1_000_000_000 in
    (r : Res crates Bool × Inner streams) × (kept : List (Entry Bytes)) × (dropped : List
      (Entry Bytes))
    × (t : Inner streams) × (write messages u32 40 s (0, 0) clock 7 (some (1 ∷ 2 ∷ 3 ∷ [], 0))
        ≡ done r)
    × Drops s clock kept dropped
    × (queued t.out_queue
        ≡ insert_entry (record { priority = 0; queued_at = 7; msg = frame_3 }) kept)
    × (t.current_write ≡ s.current_write)
    × (t.stream ≡ s.stream)
    × (t.msg_reader ≡ s.msg_reader)
    × Flushed streams-SendLaws t r
write-Flushed_example =
    write-Flushed messages u32 streams-SendLaws 40 (socket_on (pipe [] 9 [])) (0, 0)
      (λ _. 100 * 1_000_000_000) 7 (1 ∷ 2 ∷ 3 ∷ []) 0 frame_3 frame_3-sent (omega arith)
      (omega arith)

abbrev arriving : Pipe
arriving = pipe ((3 ∷ 0 ∷ 0 ∷ []) ∷ (0 ∷ 1 ∷ 2 ∷ 3 ∷ 9 ∷ []) ∷ []) 0 []

arriving-Receives :
    Receives streams 2 arriving (3 ∷ 0 ∷ 0 ∷ 0 ∷ 1 ∷ 2 ∷ 3 ∷ 9 ∷ []) (failed blocked) (pipe [] 0 [])
arriving-Receives =
    reads 3 (0 ∷ 0 ∷ []) refl
      (reads 0 (1 ∷ 2 ∷ 3 ∷ 9 ∷ []) refl (fails (pipe [] 0 []) (pipe [] 0 []) blocked refl))

nothing_buffered : try_read messages u32 (plain 10 0 []) ≡ (ok none, plain 10 0 [])
unfolding dec_encrypted_size_len
nothing_buffered = try_read-short messages u32 (plain 10 0 []) refl (omega arith)

read-Receives_example :
    let s = socket_on arriving in
    read messages u32 3 s
    ≡ done (
        conclude messages u32 (failed blocked) true (record s {
          stream = pipe [] 0 [];
          msg_reader = put_buf (plain 10 0 []) (3 ∷ 0 ∷ 0 ∷ 0 ∷ 1 ∷ 2 ∷ 3 ∷ 9 ∷ []);
        }))
read-Receives_example =
    read-Receives messages u32 3 (socket_on arriving) (plain 10 0 []) nothing_buffered
      arriving-Receives (omega arith)

read_total_example :
    (r : Res crates (Option Bytes) × Inner streams) × (read messages u32 3 (socket_on arriving)
      ≡ done r)
read_total_example = read_total messages u32 streams-ReadLaws 3 (socket_on arriving) (omega arith)

Reach-ne-panic_example :
    let s = new_with_conf {api = streams} arriving (default_config crates) in
    IsSound s
    × ((fuel : ℕ) (nonces : ℕ × ℕ) (clock : Clock) (now : Instant) (msg : Option (Bytes × Priority))
        → write messages u32 fuel s nonces clock now msg ≢ panic)
Reach-ne-panic_example = Reach-ne-panic messages u32 (created arriving (default_config crates))

-- All seven bytes find room.
frame_3-Frames : Frames messages u32 null_ctx 10 ((1 ∷ 2 ∷ 3 ∷ []) ∷ []) (frame_3 ∷ [])
unfolding enc_encrypted_size_len
frame_3-Frames =
    frame (0, 0) (1 ∷ 2 ∷ 3 ∷ []) frame_3 frame_3-sent (omega arith) (omega arith) (omega arith)
      no_frames

abbrev after : Inner streams
after = record (socket_on (pipe [] 2 frame_3)) {
  out_queue = record { inner = []; conf = default_config crates };
}

all_sent : flush_write_until_would_block 20 (socket_on (pipe [] 9 [])) ≡ done (ok true, after)
unfolding flush_write_until_would_block flush_round write_round after_write next_data loop
    take_or_next next_msg pop_first remove
all_sent = refl

flush-try_reads_example :
    try_reads messages u32 1 (plain 10 0 frame_3)
    ≡ (delivered messages u32 ((1 ∷ 2 ∷ 3 ∷ []) ∷ []), plain 10 0 [])
flush-try_reads_example =
    flush-try_reads keys messages u32 messages-RoundTrips u32-RoundTrips u32-FixedSizes
      streams-SendLaws 20 (socket_on (pipe [] 9 [])) after ((1 ∷ 2 ∷ 3 ∷ []) ∷ []) (plain 10 0 [])
      (omega arith) (omega arith) refl refl both_null frame_3-Frames refl refl all_sent
