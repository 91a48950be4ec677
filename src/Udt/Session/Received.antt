-- ===== src/Udt/Session/Received.antt =====
-- Both ends of a connection of src/udt/udt_sock.rs: a whole session of the sender, and the calls of
-- `read` of the receiver.
use socket_collection.Base.{
  ℕ, suc, ◌<◌, ◌≡◌, sym, ap, ap₂, ◌∙◌, List, [], ◌∷◌, none, true, length, concat, done, arith,
  append-nil, length-map,
}
use socket_collection.Env.{Crates, Bytes}
use socket_collection.OutQueue.Order.{Entry, IsOrdered, entries}
use socket_collection.OutQueue.Waiting.{messages}
use socket_collection.OutQueue.Fates.{Survives}
use socket_collection.Udt.Api.{UdtApi, Limits, ByteOrder, ByteOrderLaws, StreamCodec, Streams}
use socket_collection.Udt.Inner.{Inner}
use socket_collection.Udt.Inner.Queue.{waiting}
use socket_collection.Udt.Inner.Buffer.{
  UdtFrames, no_frames, messages_read, buffer_reads, buffer_reads-at_frame,
}
use socket_collection.Udt.Inner.Flush.{SendLaws}
use socket_collection.Udt.Inner.Receive.{Receives, failed}
use socket_collection.Udt.Inner.Reads.{udt_reads, buffer_reads-udt_reads}
use socket_collection.Udt.Session.{Session, Session-Written, fresh-Written, all_sent}

module _ {x : Crates} {api : UdtApi x} {T : Type 0} (limits : Limits) (order : ByteOrder)
    (c : StreamCodec x T) (laws : ByteOrderLaws order) (streams : Streams c) where
  -- Frames that the library gives to an idle, empty socket are what calls of `read` return.
  frames_read :
      {k fuel : ℕ} {net net' : api.Net} {e : api.Failure} (us : List T) (frames : List Bytes)
      (wire : Bytes) (t : Inner api)
      → UdtFrames limits order c us frames
      → wire ≡ concat frames
      → 0 < length wire
      → t.read_len ≡ 0
      → t.read_buffer ≡ []
      → Receives api t.stream k net wire (failed e) net'
      → api.is_easyncrcv e ≡ true
      → k < fuel
      → udt_reads limits order c fuel (length us) t net ≡ done (messages_read us, t, net')
  frames_read [] frames wire t no_frames split some_bytes idle clean d retry enough =
      absurd (omega (arith, some_bytes, ap length split))
  frames_read {fuel = fuel} (v ∷ us) frames wire t framed split some_bytes idle clean d retry
        enough =
      buffer_reads-udt_reads limits order c fuel v us t idle clean d enough retry (
        ap₂
          (λ l b.
            buffer_reads limits order c (suc (length us))
              (record t { read_len = l; read_buffer = b }))
          idle (split ∙ sym (append-nil (concat frames)))
        ∙ buffer_reads-at_frame limits order c laws streams t [] framed
        ∙ ap₂ (λ l b. (messages_read (v ∷ us), record t { read_len = l; read_buffer = b }))
            (sym idle) (sym clean))

  -- From socket to socket over a whole session, and over a byte order and a codec that keep their
  -- contracts: a socket that has sent nothing, over a library that keeps its contract, with nothing
  -- queued or begun, is called to write messages of all priorities, some of which cannot be
  -- serialised and are refused, and is polled in between, however often the library would block and
  -- takes only parts, until nothing waits and something was sent. The other calls return `Ok`, and
  -- in between the outgoing side does not change. Each message is within the limit and of a length
  -- that fits a `u32`. If the library of a receiver that is between two frames, with an empty
  -- buffer, gives the bytes that were accepted, in any number of pieces, and then would block, and
  -- the fuel exceeds the number of the pieces, then there are messages that as many calls of `read`
  -- return one after the other, leaving the receiver as it was, and these are, of the messages
  -- written and not refused, of each priority some, in the order of the writes and none twice, and
  -- of each priority below the drop priority all.
  pub Session-udt_reads :
      (send_laws : SendLaws api) (vs : List (Entry T)) (s0 s t : Inner api) (net0 net : api.Net)
      → send_laws.wire s0.stream net0 ≡ []
      → s0.current_write ≡ none
      → IsOrdered 0 s0.write_queue
      → entries s0.write_queue ≡ []
      → Session limits order c send_laws s0 net0 vs s net
      → waiting s.current_write s.write_queue ≡ []
      → 0 < length (send_laws.wire s.stream net)
      → t.read_len ≡ 0
      → t.read_buffer ≡ []
      → {k : ℕ} {there there' : api.Net} {e : api.Failure} (fuel : ℕ)
      → Receives api t.stream k there (send_laws.wire s.stream net) (failed e) there'
      → api.is_easyncrcv e ≡ true
      → k < fuel
      → (us : List (Entry T)) × Survives limits.msg_drop_priority us vs
        × (udt_reads limits order c fuel (length us) t there
            ≡ done (messages_read (messages us), t, there'))
  Session-udt_reads send_laws vs s0 s t net0 net fresh none_begun w empty session sent some_bytes
        idle clean {there = there} fuel d retry enough =
      let (us, frames, survives, framed, wire) =
        all_sent limits order c send_laws s net vs
          (Session-Written limits order c send_laws
            (fresh-Written limits order c send_laws s0 net0 fresh none_begun w empty) session)
          sent in
      (
        us,
        survives,
        ap (λ n. udt_reads limits order c fuel n t there) (sym (length-map (λ m. m.msg) us))
            ∙ frames_read (messages us) frames (send_laws.wire s.stream net) t framed wire
                some_bytes idle clean d retry enough,
      )
