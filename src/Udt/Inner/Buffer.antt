-- ===== src/Udt/Inner/Buffer.antt =====
-- `read_from_buffer` of src/udt/udt_sock.rs on frames that `write` put together.
pub mod Fragments
use socket_collection.Base.{
  ℕ, zero, suc, ◌+◌, ◌%◌, ◌≤◌, ◌<◌, ◌≡◌, refl, sym, ap, ◌∙◌, List, [], ◌∷◌, ◌++◌, map, Option, none,
  some, ok, err, length, concat, take, drop, ltb, ◌==◌, drop-append, length-append, append_assoc,
  append-nil, arith, if◌then◌else◌, map_err,
}
use native.Mathlib.Nat.{mod-eq_of_lt}
use socket_collection.Env.{Crates, Bytes}
use socket_collection.Error.{Res}
use socket_collection.Tcp.Frame.{u32_mod}
use socket_collection.Udt.Api.{UdtApi, Limits, ByteOrder, ByteOrderLaws, StreamCodec, Streams}
use socket_collection.Udt.Frame.{u32_size, frame, frame-parts}
use socket_collection.Udt.Inner.{
  Inner, length_read, message_read, read_message, after_length, read_from_buffer,
}

-- The two parts of a frame of `v`, for a reader with these limits.
pub record IsFrame {x : Crates} {T : Type 0} (limits : Limits) (order : ByteOrder)
    (c : StreamCodec x T) (v : T) (header payload : Bytes) : Type 0 where
  pub header_size : length header ≡ u32_size
  pub header_value : (rest : Bytes) → order.get_u32 (header ++ rest) ≡ ok (length payload)
  pub payload_value : (rest : Bytes) → c.deserialise_from (payload ++ rest) ≡ ok v
  pub within : length payload ≤ limits.max_payload_size

module _ {x : Crates} {T : Type 0} (limits : Limits) (order : ByteOrder) (c : StreamCodec x T) where
  -- A frame that was written is one for the reader, if the message is within the limit and its
  -- length fits a `u32`.
  pub frame-IsFrame :
      ByteOrderLaws order
      → Streams c
      → (v : T) (bytes : Bytes) → frame order c v ≡ ok bytes
      → length bytes ≤ u32_size + limits.max_payload_size
      → length bytes < u32_size + u32_mod
      → (header : Bytes) × (payload : Bytes) × (bytes ≡ header ++ payload)
        × IsFrame limits order c v header payload
  frame-IsFrame laws streams v bytes h hi small =
      let (payload, p, e) = frame-parts laws c v h in
      let header = order.put_u32 (length payload % u32_mod) in
      let total : length bytes ≡ u32_size + length payload =
        ap length e
        ∙ omega (arith, length-append header payload, laws.length_put (length payload % u32_mod)) in
      let fits : length payload % u32_mod ≡ length payload = mod-eq_of_lt (omega arith) in
      (
        header,
        payload,
        e,
        record {
          header_size = laws.length_put (length payload % u32_mod);
          header_value =
              λ rest. laws.get_put (length payload % u32_mod) rest (omega arith) ∙ ap ok fits;
          payload_value = λ rest. streams v payload rest p;
          within = omega arith;
        },
      )

module _ {x : Crates} {api : UdtApi x} {T : Type 0} (limits : Limits) (order : ByteOrder)
    (c : StreamCodec x T) where
  -- A buffered length is taken off, and remembered.
  pub read_from_buffer-header :
      {v : T} {header payload : Bytes} (rest : Bytes) (s : Inner api)
      → IsFrame limits order c v header payload
      → s.read_len ≡ 0
      → s.read_buffer ≡ header ++ rest
      → read_from_buffer limits order c s
        ≡ read_message limits order c (record s { read_len = length payload; read_buffer = rest })
  unfolding read_from_buffer length_read after_length
  read_from_buffer-header {header = header} {payload} rest s f idle b = ground (
    arith,
    drop-append u32_size header rest f.header_size,
    length-append header rest,
    f.header_value rest,
  )

  -- Less than a length is left alone.
  pub read_from_buffer-short :
      (s : Inner api)
      → s.read_len ≡ 0
      → length s.read_buffer < u32_size
      → read_from_buffer limits order c s ≡ (ok none, s)
  unfolding read_from_buffer
  read_from_buffer-short s e h = ground arith

  -- Once the length is known it is not read again.
  pub read_from_buffer-started :
      (s : Inner api)
      → 0 < s.read_len
      → read_from_buffer limits order c s ≡ read_message limits order c s
  unfolding read_from_buffer
  read_from_buffer-started s h = ground arith

  pub read_message-waits :
      (s : Inner api)
      → length s.read_buffer < s.read_len
      → read_message limits order c s ≡ (ok none, s)
  unfolding read_message
  read_message-waits s h = ground arith

  pub read_message-done :
      {v : T} {header payload : Bytes} (rest : Bytes) (s : Inner api)
      → IsFrame limits order c v header payload
      → s.read_len ≡ length payload
      → s.read_buffer ≡ payload ++ rest
      → read_message limits order c s ≡ (ok (some v), record s { read_len = 0; read_buffer = rest })
  unfolding read_message message_read
  read_message-done {payload = payload} rest s f l b = ground (
    arith,
    drop-append (length payload) payload rest refl,
    length-append payload rest,
    f.payload_value rest,
  )

  -- `read_from_buffer` called so many times.
  abbrev pub buffer_reads : ℕ → Inner api → List (Res x (Option T)) × Inner api
  buffer_reads zero s = ([], s)
  buffer_reads (suc n) s =
      let (result, s') = read_from_buffer limits order c s in
      let (results, last) = buffer_reads n s' in (result ∷ results, last)

-- Frames of these messages, within the limit of the reader. A message may serialise to nothing.
pub data UdtFrames {x : Crates} {T : Type 0} (limits : Limits) (order : ByteOrder)
    (c : StreamCodec x T) : List T → List Bytes → Type 0 where
  no_frames : UdtFrames limits order c [] []
  one_frame :
      {vs : List T} {rest : List Bytes} (v : T) (bytes : Bytes)
      → frame order c v ≡ ok bytes
      → length bytes ≤ u32_size + limits.max_payload_size
      → length bytes < u32_size + u32_mod
      → UdtFrames limits order c vs rest
      → UdtFrames limits order c (v ∷ vs) (bytes ∷ rest)

abbrev pub messages_read : {x : Crates} {T : Type 0} → List T → List (Res x (Option T))
messages_read = map (λ v. ok (some v))

module _ {x : Crates} {api : UdtApi x} {T : Type 0} (limits : Limits) (order : ByteOrder)
    (c : StreamCodec x T) (laws : ByteOrderLaws order) (streams : Streams c) where
  abbrev at_frame : Inner api → Bytes → Inner api
  at_frame s bytes = record s { read_len = 0; read_buffer = bytes }

  pub buffer_reads-at_frame :
      (s : Inner api) (rest : Bytes) {vs : List T} {frames : List Bytes}
      → UdtFrames limits order c vs frames
      → buffer_reads limits order c (length vs) (at_frame s (concat frames ++ rest))
        ≡ (messages_read vs, at_frame s rest)
  buffer_reads-at_frame s rest no_frames = refl
  buffer_reads-at_frame s rest (one_frame {rest = bs} v bytes h hi small more) =
      let (header, payload, split, f) =
        frame-IsFrame limits order c laws streams v bytes h hi small in
      let whole : (bytes ++ concat bs) ++ rest ≡ header ++ (payload ++ (concat bs ++ rest)) =
        append_assoc bytes (concat bs) rest
        ∙ ap (λ t. t ++ (concat bs ++ rest)) split
        ∙ append_assoc header payload (concat bs ++ rest) in
      let first =
        read_from_buffer-header limits order c (payload ++ (concat bs ++ rest))
          (at_frame s ((bytes ++ concat bs) ++ rest)) f refl whole
        ∙ read_message-done limits order c (concat bs ++ rest)
            (record s { read_len = length payload; read_buffer = payload ++ (concat bs ++ rest) }) f
            refl refl in
      rw (first, buffer_reads-at_frame s rest more)
