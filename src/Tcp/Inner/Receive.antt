-- ===== src/Tcp/Inner/Receive.antt =====
-- `read` of `Inner` in src/tcp.rs: the loop over the stream, and what is read in the end.
use socket_collection.Base.{
  or_true, ℕ, zero, suc, ◌≤◌, ◌<◌, ◌≡◌, ◌≢◌, refl, ◌∙◌, [], ◌∷◌, ◌++◌, Option, none, some, ok, err,
  Result, Bool, true, false, ◌||◌, not, is_empty, done, arith, if◌then◌else◌,
}
use socket_collection.Base.Loop.{loop, loop-return, loop-again}
use socket_collection.Env.{Crates, Codec, Bytes}
use socket_collection.Error.{IoError, Res, io, zero_byte_read, is_retry}
use socket_collection.Mio.{TcpApi}
use socket_collection.Tcp.Reader.{LenDelimitedReader, put_buf, try_read}
use socket_collection.Tcp.Reader.Fragments.{put_buf-nil, put_buf-append}
use socket_collection.Tcp.Inner.{
  Inner, buffer_len, with_reader, after_read, read_round, read_more, read,
}

-- Why a stream has nothing more to give: an error, or its end.
pub data Stop : Type 0 where
  failed : IoError → Stop
  eof : Stop

module _ {x : Crates} (api : TcpApi x) where
  -- A stream that gives some bytes in a number of reads, and then stops.
  pub data Receives : ℕ → api.Stream → Bytes → Stop → api.Stream → Type 0 where
    fails :
        (s s' : api.Stream) (e : IoError)
        → api.read s buffer_len ≡ (err e, s')
        → Receives 0 s [] (failed e) s'
    ends : (s s' : api.Stream) → api.read s buffer_len ≡ (ok [], s') → Receives 0 s [] eof s'
    reads :
        {n : ℕ} {s s' s'' : api.Stream} {bs : Bytes} {stop : Stop} (b : ℕ) (rest : Bytes)
        → api.read s buffer_len ≡ (ok (b ∷ rest), s')
        → Receives n s' bs stop s''
        → Receives (suc n) s ((b ∷ rest) ++ bs) stop s''

  -- A stream that can be read only so often before it stops.
  pub record ReadLaws : Type 0 where
    pub readable : api.Stream → ℕ
    pub read_ok :
        (s s' : api.Stream) (b : ℕ) (rest : Bytes)
        → api.read s buffer_len ≡ (ok (b ∷ rest), s')
        → readable s' < readable s

  -- What `Receives` says of some end, within as many reads as the stream allows.
  abbrev pub Ends : ReadLaws → api.Stream → Type 0
  Ends laws s =
      (n : ℕ) × (bs : Bytes) × (stop : Stop) × (s' : api.Stream) × Receives n s bs stop s'
      × (n ≤ laws.readable s)

  Ends-from :
      (laws : ReadLaws) (s : api.Stream) (r : Result IoError Bytes × api.Stream)
      → api.read s buffer_len ≡ r
      → ((s' : api.Stream) → laws.readable s' < laws.readable s → Ends laws s')
      → Ends laws s
  Ends-from laws s (err e, s') p later = (0, [], failed e, s', fails s s' e p, omega arith)
  Ends-from laws s (ok [], s') p later = (0, [], eof, s', ends s s' p, omega arith)
  Ends-from laws s (ok (b ∷ rest), s') p later =
      let lower = laws.read_ok s s' b rest p in
      let (n, bs, stop, s'', d, le) = later s' lower in
      (suc n, (b ∷ rest) ++ bs, stop, s'', reads b rest p d, omega (arith, lower))

  pub Receives-total :
      (laws : ReadLaws) (bound : ℕ) (s : api.Stream) → laws.readable s < bound → Ends laws s
  Receives-total laws zero s le = absurd (omega arith)
  Receives-total laws (suc bound) s le =
      Ends-from laws s (api.read s buffer_len) refl
        (λ s' lower. Receives-total laws bound s' (omega arith))

-- At the end of the stream, having no message is the error `ZeroByteRead`.
abbrev pub at_end : {x : Crates} {T : Type 0} → Res x (Option T) → Res x (Option T)
at_end (ok none) = err zero_byte_read
at_end (ok (some v)) = ok (some v)
at_end (err e) = err e

module _ {x : Crates} {api : TcpApi x} {T : Type 0} (c : Codec x T) (u32 : Codec x ℕ) where
  -- The specification: all bytes are in the reader, and if any came it is asked for a message,
  -- once.
  abbrev pub conclude : Stop → Bool → Inner api → Res x (Option T) × Inner api
  conclude (failed e) is_something_read s =
      if is_retry e.kind
      then if is_something_read
        then (
          (try_read c u32 s.msg_reader).0,
          record s { msg_reader = (try_read c u32 s.msg_reader).1 },
        )
        else (ok none, s)
      else (err (io e), s)
  conclude eof is_something_read s =
      if is_something_read
      then (
        at_end (try_read c u32 s.msg_reader).0,
        record s { msg_reader = (try_read c u32 s.msg_reader).1 },
      )
      else (err zero_byte_read, s)

  loop-Receives :
      (fuel : ℕ) {n : ℕ} {st st' : api.Stream} {bs : Bytes} {stop : Stop} (s : Inner api)
      → (is_something_read : Bool) → Receives api n st bs stop st'
      → n < fuel
      → loop fuel (read_round c u32) (record s { stream = st }, is_something_read)
        ≡ done (
            conclude stop
              (is_something_read || not (is_empty bs))
              (record s { stream = st'; msg_reader = put_buf s.msg_reader bs }))
  unfolding read_round after_read with_reader
  loop-Receives zero s flag d h = absurd (omega arith)
  loop-Receives (suc fuel) s flag (fails st st' e p) h =
      loop-return fuel (read_round c u32) _ _ (ground (arith, put_buf-nil s.msg_reader))
  loop-Receives (suc fuel) s flag (ends st st' p) h =
      loop-return fuel (read_round c u32) _ _ (ground (arith, put_buf-nil s.msg_reader))
  loop-Receives (suc fuel) s flag (reads {s' = st'} {bs = bs} b rest p d) h =
      loop-again fuel (read_round c u32) _
        (record s { stream = st'; msg_reader = put_buf s.msg_reader (b ∷ rest) }, true)
        (ground arith)
      ∙ loop-Receives fuel (record s { msg_reader = put_buf s.msg_reader (b ∷ rest) }) true d
          (omega arith)
      ∙ rw (put_buf-append s.msg_reader (b ∷ rest) bs, or_true flag)

  read-loop :
      (fuel : ℕ) (s : Inner api) (r : LenDelimitedReader x)
      → try_read c u32 s.msg_reader ≡ (ok none, r)
      → read c u32 fuel s ≡ loop fuel (read_round c u32) (record s { msg_reader = r }, false)
  unfolding read read_more with_reader
  read-loop fuel s r h = rw h

  -- If the buffered bytes hold no message, and the stream gives some bytes in `n` reads and then
  -- stops, and the fuel exceeds `n`, then `read` does what one `try_read` does with all these
  -- bytes: a message is returned if there is one; without one it is `Ok(None)` if the stream is
  -- only empty for now, and `ZeroByteRead` at its end. If no byte came the reader is not asked
  -- again, and any other error of the stream is returned as it is.
  pub read-Receives :
      (fuel : ℕ) {n : ℕ} {st' : api.Stream} {bs : Bytes} {stop : Stop} (s : Inner api)
      → (r : LenDelimitedReader x) → try_read c u32 s.msg_reader ≡ (ok none, r)
      → Receives api n s.stream bs stop st'
      → n < fuel
      → read c u32 fuel s
        ≡ done (
            conclude stop
              (not (is_empty bs))
              (record s { stream = st'; msg_reader = put_buf r bs }))
  read-Receives fuel s r h d enough =
      read-loop fuel s r h ∙ loop-Receives fuel (record s { msg_reader = r }) false d enough

  -- What the buffered bytes decide, a message or an error, is returned and the stream not touched.
  pub read-buffered :
      (fuel : ℕ) (s : Inner api) (r : LenDelimitedReader x) (result : Res x (Option T))
      → try_read c u32 s.msg_reader ≡ (result, r)
      → result ≢ ok none
      → read c u32 fuel s ≡ done (result, record s { msg_reader = r })
  unfolding read read_more with_reader
  read-buffered fuel s r (ok none) h other = absurd (other refl)
  read-buffered fuel s r (ok (some v)) h other = rw h
  read-buffered fuel s r (err e) h other = rw h

  -- On a stream that can be read only so often before it stops, `read` returns as soon as the fuel
  -- exceeds that number: its loop ends.
  pub read_total :
      (laws : ReadLaws api) (fuel : ℕ) (s : Inner api)
      → laws.readable s.stream < fuel
      → (r : Res x (Option T) × Inner api) × (read c u32 fuel s ≡ done r)
  read_total laws fuel s enough = from_first (try_read c u32 s.msg_reader) refl
    where
      from_first :
          (first : Res x (Option T) × LenDelimitedReader x)
          → try_read c u32 s.msg_reader ≡ first
          → (r : Res x (Option T) × Inner api) × (read c u32 fuel s ≡ done r)
      from_first (ok none, r) h =
          let (n, bs, stop, st', d, le) = Receives-total api laws fuel s.stream enough in
          (_, read-Receives fuel s r h d (omega arith))
      from_first (ok (some v), r) h =
          (_, read-buffered fuel s r (ok (some v)) h (λ e. ground arith))
      from_first (err e, r) h = (_, read-buffered fuel s r (err e) h (λ e. ground arith))
