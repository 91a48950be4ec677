-- ===== src/Udt/Inner/Receive.antt =====
-- `read` of `Inner` in src/udt/udt_sock.rs: the loop over the stream, and what is read in the end.
use socket_collection.Base.{
  or_true, ℕ, zero, suc, ◌≤◌, ◌<◌, ◌≡◌, refl, sym, ap, ◌∙◌, [], ◌∷◌, ◌++◌, take, Option, none, some,
  ok, err, Result, Bool, true, false, ◌||◌, not, length, is_empty, done, arith, append_assoc,
  append-nil, if◌then◌else◌,
}
use socket_collection.Base.Int.{ℤ, pos, negsuc}
use socket_collection.Base.Loop.{loop, loop-return, loop-again}
use socket_collection.Env.{Crates, Bytes}
use socket_collection.Error.{Res, zero_byte_read, udt_negative_bytes_read}
use socket_collection.Udt.Api.{UdtApi, Limits, ByteOrder, StreamCodec}
use socket_collection.Udt.Inner.{
  Inner, buf_len, length_read, message_read, read_message, after_length, read_from_buffer,
  bytes_read, after_recv, read_round, read_more, read,
}
use socket_collection.Udt.Inner.Buffer.Fragments.{extend}

-- Why a socket has nothing more to give.
pub data Stop {x : Crates} (api : UdtApi x) : Type 0 where
  failed : api.Failure → Stop api
  negative : ℕ → Stop api
  eof : Stop api

module _ {x : Crates} (api : UdtApi x) where
  -- A socket that gives some bytes in a number of receives, and then stops.
  pub data Receives (stream : api.UdtSocket)
      : ℕ → api.Net → Bytes → Stop api → api.Net → Type 0 where
    fails :
        {net net' : api.Net} (e : api.Failure) (buffer : Bytes)
        → api.recv stream buf_len net ≡ (err e, buffer, net')
        → Receives stream 0 net [] (failed e) net'
    negatives :
        {net net' : api.Net} (n : ℕ) (buffer : Bytes)
        → api.recv stream buf_len net ≡ (ok (negsuc n), buffer, net')
        → Receives stream 0 net [] (negative n) net'
    ends :
        {net net' : api.Net} (buffer : Bytes)
        → api.recv stream buf_len net ≡ (ok (pos 0), buffer, net')
        → Receives stream 0 net [] eof net'
    receives :
        {k : ℕ} {net net' net'' : api.Net} {bs : Bytes} {stop : Stop api} (n : ℕ) (buffer : Bytes)
        → api.recv stream buf_len net ≡ (ok (pos (suc n)), buffer, net')
        → suc n ≤ length buffer
        → Receives stream k net' bs stop net''
        → Receives stream (suc k) net (take (suc n) buffer ++ bs) stop net''

  -- The library does not report more bytes than the buffer holds, and can be asked only so often
  -- before the socket stops.
  pub record ReadLaws : Type 0 where
    pub readable : api.UdtSocket → api.Net → ℕ
    pub recv_ok :
        (s : api.UdtSocket) (net net' : api.Net) (n : ℕ) (buffer : Bytes)
        → api.recv s buf_len net ≡ (ok (pos (suc n)), buffer, net')
        → (suc n ≤ length buffer) × (readable s net' < readable s net)

  abbrev pub Ends : ReadLaws → api.UdtSocket → api.Net → Type 0
  Ends laws s net =
      (k : ℕ) × (bs : Bytes) × (stop : Stop api) × (net' : api.Net) × Receives s k net bs stop net'
      × (k ≤ laws.readable s net)

  Ends-from :
      (laws : ReadLaws) (s : api.UdtSocket) (net net' : api.Net) (r : Result api.Failure ℤ)
      → (buffer : Bytes) → api.recv s buf_len net ≡ (r, buffer, net')
      → ((n : api.Net) → laws.readable s n < laws.readable s net → Ends laws s n)
      → Ends laws s net
  Ends-from laws s net net' (err e) buffer p later =
      (0, [], failed e, net', fails e buffer p, omega arith)
  Ends-from laws s net net' (ok (negsuc n)) buffer p later =
      (0, [], negative n, net', negatives n buffer p, omega arith)
  Ends-from laws s net net' (ok (pos zero)) buffer p later =
      (0, [], eof, net', ends buffer p, omega arith)
  Ends-from laws s net net' (ok (pos (suc n))) buffer p later =
      let (bound, lower) = laws.recv_ok s net net' n buffer p in
      let (k, bs, stop, net'', d, le) = later net' lower in
      (
        suc k,
        take (suc n) buffer ++ bs,
        stop,
        net'',
        receives n buffer p bound d,
        omega (arith, lower),
      )

  pub Receives-total :
      (laws : ReadLaws) (bound : ℕ) (s : api.UdtSocket) (net : api.Net)
      → laws.readable s net < bound
      → Ends laws s net
  Receives-total laws zero s net le = absurd (omega arith)
  Receives-total laws (suc bound) s net le =
      Ends-from laws s net (api.recv s buf_len net).2 (api.recv s buf_len net).0
        (api.recv s buf_len net).1 refl (λ n lower. Receives-total laws bound s n (omega arith))

received :
    (n : ℕ) (buffer bs : Bytes)
    → suc n ≤ length buffer
    → is_empty (take (suc n) buffer ++ bs) ≡ false
received n [] bs h = absurd (omega arith)
received n (b ∷ buffer) bs h = refl

-- At the end of the stream, having no message is the error `ZeroByteRead`.
abbrev pub at_end : {x : Crates} {T : Type 0} → Res x (Option T) → Res x (Option T)
at_end (ok none) = err zero_byte_read
at_end (ok (some v)) = ok (some v)
at_end (err e) = err e

module _ {x : Crates} {api : UdtApi x} {T : Type 0} (limits : Limits) (order : ByteOrder)
    (c : StreamCodec x T) where
  -- The specification: all bytes are in the buffer, and if any came it is asked for a message,
  -- once.
  abbrev pub conclude : Stop api → Bool → Inner api → Res x (Option T) × Inner api
  conclude (failed e) is_something_read s =
      if api.is_easyncrcv e
      then if is_something_read then read_from_buffer limits order c s else (ok none, s)
      else (err (api.into_socket_error e), s)
  conclude (negative n) is_something_read s = (err (udt_negative_bytes_read (negsuc n)), s)
  conclude eof is_something_read s =
      if is_something_read
      then (at_end (read_from_buffer limits order c s).0, (read_from_buffer limits order c s).1)
      else (err zero_byte_read, s)

  loop-Receives :
      (fuel : ℕ) {k : ℕ} (s : Inner api) {net net' : api.Net} {bs : Bytes} {stop : Stop api}
      → (flag : Bool) → Receives api s.stream k net bs stop net'
      → k < fuel
      → loop fuel (read_round limits order c) ((s, flag), net)
        ≡ done (conclude stop (flag || not (is_empty bs)) (extend s bs), net')
  unfolding read_round after_recv bytes_read
  loop-Receives zero s flag d h = absurd (omega arith)
  loop-Receives (suc fuel) s flag (fails e buffer p) h =
      loop-return fuel (read_round limits order c) _ _ (ground (arith, append-nil s.read_buffer))
  loop-Receives (suc fuel) s flag (negatives n buffer p) h =
      loop-return fuel (read_round limits order c) _ _ (ground (arith, append-nil s.read_buffer))
  loop-Receives (suc fuel) s flag (ends buffer p) h =
      loop-return fuel (read_round limits order c) _ _ (ground (arith, append-nil s.read_buffer))
  loop-Receives (suc fuel) s flag (receives {net' = net'} {bs = bs} n buffer p bound d) h =
      loop-again fuel (read_round limits order c) _ ((extend s (take (suc n) buffer), true), net')
        (ground arith)
      ∙ loop-Receives fuel (extend s (take (suc n) buffer)) true d (omega arith)
      ∙ rw (
        append_assoc s.read_buffer (take (suc n) buffer) bs,
        received n buffer bs bound,
        or_true flag,
      )

  read-loop :
      (fuel : ℕ) (s s' : Inner api) (net : api.Net)
      → read_from_buffer limits order c s ≡ (ok none, s')
      → read limits order c fuel s net ≡ loop fuel (read_round limits order c) ((s', false), net)
  unfolding read read_more
  read-loop fuel s s' net h = rw h

  -- If the buffered bytes hold no message, and the socket gives some bytes in `k` receives and then
  -- stops, and the fuel exceeds `k`, then `read` does what one `read_from_buffer` does with all
  -- these bytes: a message is returned if there is one; without one it is `Ok(None)` if the socket
  -- is only empty for now, and `ZeroByteRead` at its end. If no byte came the buffer is not asked
  -- again. A negative number of bytes is `UdtNegativeBytesRead`, and any other error of the library
  -- is returned; after either, all bytes are in the buffer.
  pub udt_read-Receives :
      (fuel : ℕ) {k : ℕ} (s s' : Inner api) {net net' : api.Net} {bs : Bytes} {stop : Stop api}
      → read_from_buffer limits order c s ≡ (ok none, s')
      → Receives api s'.stream k net bs stop net'
      → k < fuel
      → read limits order c fuel s net
        ≡ done (conclude stop (not (is_empty bs)) (extend s' bs), net')
  udt_read-Receives fuel s s' {net = net} h d enough =
      read-loop fuel s s' net h ∙ loop-Receives fuel s' false d enough

  read_from_buffer-stream :
      (s : Inner api) → (read_from_buffer limits order c s).1.stream ≡ s.stream
  unfolding read_from_buffer after_length length_read read_message message_read
  read_from_buffer-stream s = ground arith

  -- With a library that reports no more bytes than the buffer holds, and a socket that can be asked
  -- only so often before it stops, `read` returns, and does not panic, as soon as the fuel exceeds
  -- that number: its loop ends.
  pub udt_read_total :
      (laws : ReadLaws api) (fuel : ℕ) (s : Inner api) (net : api.Net)
      → laws.readable s.stream net < fuel
      → (r : (Res x (Option T) × Inner api) × api.Net) × (read limits order c fuel s net ≡ done r)
  unfolding read read_more
  udt_read_total laws fuel s net enough = from_first (read_from_buffer limits order c s) refl
    where
      from_first :
          (first : Res x (Option T) × Inner api)
          → read_from_buffer limits order c s ≡ first
          → (r : (Res x (Option T) × Inner api) × api.Net) × (read limits order c fuel s net
              ≡ done r)
      from_first (ok none, s') h =
          let same : s'.stream ≡ s.stream =
            sym (ap (λ t. t.1.stream) h) ∙ read_from_buffer-stream s in
          let enough' : laws.readable s'.stream net < fuel = rw same enough in
          let (k, bs, stop, net', d, le) = Receives-total api laws fuel s'.stream net enough' in
          (_, udt_read-Receives fuel s s' h d (omega (arith, enough')))
      from_first (ok (some v), s') h = (((ok (some v), s'), net), rw h)
      from_first (err e, s') h = (((err e, s'), net), rw h)
