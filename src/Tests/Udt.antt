-- ===== src/Tests/Udt.antt =====
-- Witnesses for the socket of src/udt/udt_sock.rs, over a pipe.
use socket_collection.Base.{
  ℕ, ◌*◌, ◌≡◌, refl, List, [], ◌∷◌, Option, none, some, ok, Bool, true, All, done, arith,
}
use socket_collection.Base.Loop.{loop}
use socket_collection.Env.{Bytes}
use socket_collection.Error.{Res}
use socket_collection.OutQueue.{Clock, remove, pop_first}
use socket_collection.OutQueue.Order.{Entry, insert_entry}
use socket_collection.Udt.Inner.{
  Inner, read_from_buffer, take_data, after_send, send_round, flush_round, flush, read, write,
}
use socket_collection.Udt.Inner.Buffer.{
  UdtFrames, no_frames, one_frame, buffer_reads, messages_read, read_from_buffer-short,
}
use socket_collection.Udt.Inner.Buffer.Fragments.{
  extend, IsNothing, udt_feed, read_from_buffer-feed,
}
use socket_collection.Udt.Inner.Flush.{Flushed, udt_flush-Flushed}
use socket_collection.Udt.Inner.Queue.{Drops}
use socket_collection.Udt.Inner.Write.{Starts, udt_write-Flushed}
use socket_collection.Udt.Inner.Receive.{
  Receives, failed, fails, receives, conclude, udt_read-Receives, udt_read_total,
}
use socket_collection.Udt.Delivery.{flush-buffer_reads}
use socket_collection.Udt.Sock.{UdtSock, wrapped, wrap_std_sock}
use socket_collection.Udt.Sock as Sock
use socket_collection.Udt.Sock.Setup.{AreSet, options, wrap_std_sock-AreSet}
use socket_collection.Tests.World.{crates}
use socket_collection.Tests.Streams.{Pipe, pipe}
use socket_collection.Tests.Library.{
  library, library-SendLaws, library-ReadLaws, byte_order, byte_order-ByteOrderLaws, stream_codec,
  stream_codec-Streams, limits, udt_frame_3, udt_frame_3-sent,
}

abbrev idle : Inner library
idle = record { stream = 7; read_buffer = []; read_len = 0; write_queue = []; current_write = none }

-- One frame in the queue.
abbrev loaded : Inner library
loaded = record idle { write_queue = (1, (0, udt_frame_3) ∷ []) ∷ [] }

abbrev late : Clock
late = λ _. 100 * 1_000_000_000

-- Only five of the eight bytes find room.
udt_flush-Flushed_example :
    (r : (Res crates Bool × Inner library) × Pipe) × (flush 20 loaded (pipe [] 5 []) ≡ done r)
    × Flushed library-SendLaws loaded (pipe [] 5 []) r
udt_flush-Flushed_example =
    udt_flush-Flushed library-SendLaws 20 loaded (pipe [] 5 []) (omega arith) (omega arith)

udt_write-Flushed_example :
    (r : (Res crates Bool × Inner library) × Pipe) × (kept : List (Entry Bytes)) × (dropped : List
      (Entry Bytes))
    × (t : Inner library) × (write limits byte_order stream_codec 40 loaded
          (pipe [] 9 [])
          late
          7
          (some (1 ∷ 2 ∷ 3 ∷ [], 0))
        ≡ done r)
    × Drops limits loaded late kept dropped
    × Starts loaded t
        (insert_entry (record { priority = 0; queued_at = 7; msg = udt_frame_3 }) kept)
    × Flushed library-SendLaws t (pipe [] 9 []) r
udt_write-Flushed_example =
    udt_write-Flushed limits byte_order stream_codec library-SendLaws 40 loaded (pipe [] 9 []) late
      7 (1 ∷ 2 ∷ 3 ∷ []) 0 udt_frame_3 udt_frame_3-sent (omega arith) (omega arith)

all_sent : flush 20 loaded (pipe [] 9 []) ≡ done ((ok true, idle), pipe [] 1 udt_frame_3)
unfolding flush flush_round send_round after_send take_data loop pop_first remove
all_sent = refl

frames_3 : UdtFrames limits byte_order stream_codec ((1 ∷ 2 ∷ 3 ∷ []) ∷ []) (udt_frame_3 ∷ [])
frames_3 =
    one_frame (1 ∷ 2 ∷ 3 ∷ []) udt_frame_3 udt_frame_3-sent (omega arith) (omega arith) no_frames

flush-buffer_reads_example :
    buffer_reads limits byte_order stream_codec 1 (record idle { read_buffer = udt_frame_3 })
    ≡ (messages_read ((1 ∷ 2 ∷ 3 ∷ []) ∷ []), idle)
flush-buffer_reads_example =
    flush-buffer_reads limits byte_order stream_codec byte_order-ByteOrderLaws stream_codec-Streams
      library-SendLaws 20 loaded idle (pipe [] 9 []) (pipe [] 1 udt_frame_3) ((1 ∷ 2 ∷ 3 ∷ []) ∷ [])
      idle (omega arith) (omega arith) refl refl frames_3 refl refl all_sent

-- The frame comes in three pieces, and one byte of what follows.
read_from_buffer-feed_example :
    let pieces : List Bytes = (4 ∷ 0 ∷ []) ∷ (0 ∷ 0 ∷ 3 ∷ []) ∷ [] in
    let fed = udt_feed limits byte_order stream_codec idle pieces in
    All IsNothing fed.0
    × (read_from_buffer limits byte_order stream_codec (extend fed.1 (1 ∷ 2 ∷ 3 ∷ 9 ∷ []))
        ≡ (ok (some (1 ∷ 2 ∷ 3 ∷ [])), record idle { read_buffer = 9 ∷ [] }))
read_from_buffer-feed_example =
    read_from_buffer-feed limits byte_order stream_codec byte_order-ByteOrderLaws
      stream_codec-Streams (1 ∷ 2 ∷ 3 ∷ []) udt_frame_3 (9 ∷ []) (1 ∷ 2 ∷ 3 ∷ 9 ∷ [])
      ((4 ∷ 0 ∷ []) ∷ (0 ∷ 0 ∷ 3 ∷ []) ∷ []) idle udt_frame_3-sent (omega arith) (omega arith) refl
      refl refl (omega arith)

abbrev arriving : Pipe
arriving = pipe ((4 ∷ 0 ∷ 0 ∷ []) ∷ (0 ∷ 3 ∷ 1 ∷ 2 ∷ 3 ∷ []) ∷ []) 0 []

arriving-Receives : Receives library 7 2 arriving udt_frame_3 (failed 0) (pipe [] 0 [])
arriving-Receives =
    receives 2 (4 ∷ 0 ∷ 0 ∷ []) refl (omega arith)
      (receives 4 (0 ∷ 3 ∷ 1 ∷ 2 ∷ 3 ∷ []) refl (omega arith) (fails 0 [] refl))

nothing_buffered : read_from_buffer limits byte_order stream_codec idle ≡ (ok none, idle)
nothing_buffered = read_from_buffer-short limits byte_order stream_codec idle refl (omega arith)

udt_read-Receives_example :
    read limits byte_order stream_codec 3 idle arriving
    ≡ done (
      conclude limits byte_order stream_codec (failed 0) true (extend idle udt_frame_3),
      pipe [] 0 [],
    )
udt_read-Receives_example =
    udt_read-Receives limits byte_order stream_codec 3 idle idle nothing_buffered arriving-Receives
      (omega arith)

udt_read_total_example :
    (r : (Res crates (Option Bytes) × Inner library) × Pipe) × (read limits byte_order stream_codec
        3 idle arriving
      ≡ done r)
udt_read_total_example =
    udt_read_total limits byte_order stream_codec library-ReadLaws 3 idle arriving (omega arith)

set_up : wrap_std_sock {api = library} 9 (pipe [] 0 []) ≡ (ok (wrapped 7), pipe [] 0 [])
unfolding wrap_std_sock Sock.configure
set_up = refl

wrap_std_sock-AreSet_example :
    (stream : ℕ) × (created : Pipe) × (configured : Pipe) × (library.new (pipe [] 0 [])
      ≡ (ok stream, created))
    × (◌≡◌ {A = UdtSock library} (wrapped 7) (wrapped stream))
    × AreSet library stream options created configured
    × (library.bind_from stream 9 configured ≡ (ok tt, pipe [] 0 []))
wrap_std_sock-AreSet_example =
    wrap_std_sock-AreSet library 9 (pipe [] 0 []) (pipe [] 0 []) (wrapped 7) set_up
