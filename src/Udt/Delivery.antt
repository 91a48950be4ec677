-- ===== src/Udt/Delivery.antt =====
-- Both ends of a connection of src/udt/udt_sock.rs: what one side sends, the other side reads.
use socket_collection.Base.{
  done-injective, ℕ, ◌<◌, ◌≡◌, sym, ap, ap₂, subst, ◌∙◌, List, [], ◌++◌, none, ok, true, length,
  concat, done, append-nil,
}
use socket_collection.Env.{Crates}
use socket_collection.OutQueue.Order.{IsOrdered, entries}
use socket_collection.OutQueue.Waiting.{messages}
use socket_collection.Udt.Api.{UdtApi, Limits, ByteOrder, ByteOrderLaws, StreamCodec, Streams}
use socket_collection.Udt.Inner.{Inner, flush}
use socket_collection.Udt.Inner.Queue.{waiting}
use socket_collection.Udt.Inner.Flush.{SendLaws, pending, work, Flushed, udt_flush-Flushed}
use socket_collection.Udt.Inner.Buffer.{
  buffer_reads, UdtFrames, messages_read, buffer_reads-at_frame,
}

module _ {x : Crates} {api : UdtApi x} {T : Type 0} (limits : Limits) (order : ByteOrder)
    (c : StreamCodec x T) (laws : ByteOrderLaws order) (streams : Streams c) where
  -- From end to end, over a byte order and a codec that keep their contracts: a socket that has
  -- sent nothing, over a library that keeps its contract, and whose ordered queue holds frames of
  -- messages, none of them begun, sends with enough fuel. Each message is within the limit and of a
  -- length that fits a `u32`. If the loop returns `Ok(true)`, the bytes that were accepted, put
  -- into the empty buffer of a socket between two frames, are read as exactly these messages, empty
  -- ones included: in the order of the queue, each once, and nothing is left over.
  pub flush-buffer_reads :
      (send_laws : SendLaws api) (fuel : ℕ) (s s' : Inner api) (net net' : api.Net)
      → (vs : List T) (r : Inner api) → IsOrdered 0 s.write_queue
      → work s < fuel
      → send_laws.wire s.stream net ≡ []
      → s.current_write ≡ none
      → UdtFrames limits order c vs (messages (entries s.write_queue))
      → r.read_len ≡ 0
      → r.read_buffer ≡ []
      → flush fuel s net ≡ done ((ok true, s'), net')
      → buffer_reads limits order c
          (length vs)
          (record r { read_buffer = send_laws.wire s.stream net' })
        ≡ (messages_read vs, r)
  flush-buffer_reads send_laws fuel s s' net net' vs r w enough fresh none_begun sent idle clean
        flushed =
      let (r0, e0, ends) = udt_flush-Flushed send_laws fuel s net w enough in
      let (kept, nothing) =
        subst (Flushed send_laws s net) (done-injective (sym e0 ∙ flushed)) ends in
      let frames = messages (entries s.write_queue) in
      let to_send : pending s ≡ concat frames =
        ap (λ o. concat (waiting o s.write_queue)) none_begun in
      let wire : send_laws.wire s.stream net' ≡ concat frames ++ [] =
        sym (append-nil (send_laws.wire s.stream net'))
        ∙ ap (λ l. send_laws.wire s.stream net' ++ concat l) (sym nothing)
        ∙ kept.bytes
        ∙ ap (λ t. t ++ pending s) fresh
        ∙ to_send
        ∙ sym (append-nil (concat frames)) in
      ap₂
        (λ l t.
          buffer_reads limits order c (length vs) (record r { read_len = l; read_buffer = t }))
        idle wire
      ∙ buffer_reads-at_frame limits order c laws streams r [] sent
      ∙ ap₂ (λ l t. (messages_read vs, record r { read_len = l; read_buffer = t })) (sym idle)
          (sym clean)
