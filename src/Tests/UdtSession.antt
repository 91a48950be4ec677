-- ===== src/Tests/UdtSession.antt =====
-- Witnesses for whole sessions of src/udt/udt_sock.rs, over a pipe.
use socket_collection.Base.{
  ◌≡◌, refl, List, [], ◌∷◌, ◌++◌, map, none, some, ok, true, length, done, arith,
}
use socket_collection.Base.Loop.{loop}
use socket_collection.Env.{Bytes}
use socket_collection.OutQueue.{Clock, remove, pop_first, push_entry, remove_all, skip_while}
use socket_collection.OutQueue.Order.{Entry}
use socket_collection.OutQueue.Fates.{Survives}
use socket_collection.Udt.Inner.{
  Inner, drop_expired, take_data, after_send, send_round, flush_round, flush, write,
}
use socket_collection.Udt.Inner.Buffer.{messages_read}
use socket_collection.Udt.Inner.Write.{write-enqueued, write-nothing}
use socket_collection.Udt.Inner.Receive.{Receives, failed, fails, receives}
use socket_collection.Udt.Inner.Reads.{udt_reads}
use socket_collection.Udt.Session.{IsFramed, Session, opened, wrote, polled}
use socket_collection.Udt.Session.Received.{Session-udt_reads}
use socket_collection.Tests.Streams.{Pipe, pipe}
use socket_collection.Tests.Library.{
  library, library-SendLaws, byte_order, byte_order-ByteOrderLaws, stream_codec,
  stream_codec-Streams, limits, udt_frame_3, udt_frame_3-sent,
}

-- A socket that has sent nothing.
abbrev idle : Inner library
idle = record { stream = 7; read_buffer = []; read_len = 0; write_queue = []; current_write = none }

abbrev early : Clock
early = λ _. 0

abbrev first : Entry Bytes
first = record { priority = 1; queued_at = 7; msg = 1 ∷ 2 ∷ 3 ∷ [] }

abbrev second : Entry Bytes
second = record { priority = 0; queued_at = 7; msg = 1 ∷ 2 ∷ 3 ∷ [] }

udt_frame_3-IsFramed : IsFramed limits byte_order stream_codec (1 ∷ 2 ∷ 3 ∷ []) udt_frame_3
udt_frame_3-IsFramed = record {
  framed = udt_frame_3-sent;
  limited = omega arith;
  fits = omega arith;
}

wrote_first :
    write limits byte_order stream_codec 40 idle (pipe [] 20 []) early 7 (some (first.msg, 1))
    ≡ done ((ok true, idle), pipe [] 12 udt_frame_3)
unfolding drop_expired push_entry remove_all skip_while flush flush_round send_round after_send
    take_data loop pop_first remove
wrote_first =
    write-enqueued limits byte_order stream_codec 40 idle (pipe [] 20 []) early 7 first.msg 1
      udt_frame_3 udt_frame_3-sent

wrote_second :
    write limits byte_order stream_codec 40 idle
      (pipe [] 12 udt_frame_3)
      early
      7
      (some (second.msg, 0))
    ≡ done ((ok true, idle), pipe [] 4 (udt_frame_3 ++ udt_frame_3))
unfolding drop_expired push_entry remove_all skip_while flush flush_round send_round after_send
    take_data loop pop_first remove
wrote_second =
    write-enqueued limits byte_order stream_codec 40 idle (pipe [] 12 udt_frame_3) early 7
      second.msg 0 udt_frame_3 udt_frame_3-sent

polled_last :
    write limits byte_order stream_codec 40 idle
      (pipe [] 4 (udt_frame_3 ++ udt_frame_3))
      early
      7
      none
    ≡ done ((ok true, idle), pipe [] 4 (udt_frame_3 ++ udt_frame_3))
unfolding drop_expired remove_all skip_while flush flush_round send_round take_data loop pop_first
polled_last =
    write-nothing limits byte_order stream_codec 40 idle (pipe [] 4 (udt_frame_3 ++ udt_frame_3))
      early 7

two_messages :
    Session limits byte_order stream_codec library-SendLaws idle
      (pipe [] 20 [])
      (first ∷ second ∷ [])
      idle
      (pipe [] 4 (udt_frame_3 ++ udt_frame_3))
two_messages =
    polled true 40 early 7
      (wrote true 40 early second udt_frame_3 udt_frame_3-IsFramed
        (wrote true 40 early first udt_frame_3 udt_frame_3-IsFramed opened wrote_first)
        wrote_second)
      polled_last

-- The receiver gets the bytes in two pieces.
abbrev arriving : Pipe
arriving =
    pipe ((4 ∷ 0 ∷ 0 ∷ []) ∷ (0 ∷ 3 ∷ 1 ∷ 2 ∷ 3 ∷ 4 ∷ 0 ∷ 0 ∷ 0 ∷ 3 ∷ 1 ∷ 2 ∷ 3 ∷ []) ∷ []) 0 []

arriving-Receives :
    Receives library 7 2 arriving (udt_frame_3 ++ udt_frame_3) (failed 0) (pipe [] 0 [])
arriving-Receives = receives 2 (4 ∷ 0 ∷ 0 ∷ []) refl (omega arith) (
    receives 12 (0 ∷ 3 ∷ 1 ∷ 2 ∷ 3 ∷ 4 ∷ 0 ∷ 0 ∷ 0 ∷ 3 ∷ 1 ∷ 2 ∷ 3 ∷ []) refl (omega arith)
      (fails 0 [] refl))

Session-udt_reads_example :
    (us : List (Entry Bytes)) × Survives limits.msg_drop_priority us (first ∷ second ∷ [])
    × (udt_reads limits byte_order stream_codec 3 (length us) idle arriving
        ≡ done (messages_read (map (λ m. m.msg) us), idle, pipe [] 0 []))
Session-udt_reads_example =
    Session-udt_reads limits byte_order stream_codec byte_order-ByteOrderLaws stream_codec-Streams
      library-SendLaws (first ∷ second ∷ []) idle idle idle (pipe [] 20 [])
      (pipe [] 4 (udt_frame_3 ++ udt_frame_3)) refl refl tt refl two_messages refl (omega arith)
      refl refl 3 arriving-Receives refl (omega arith)
