-- ===== src/Tcp/Inner/Reads.antt =====
-- Calls of `read` of src/tcp.rs, one after the other, on a stream that gives some bytes and then
-- would block.
use socket_collection.Base.{
  ℕ, zero, suc, ◌<◌, ◌≡◌, refl, sym, ap, ap₂, ◌∙◌, List, [], ◌∷◌, Option, none, some, ok, true,
  length, Run, Result, done, ◌>>=◌, arith,
}
use socket_collection.Env.{Crates, Codec, Bytes}
use socket_collection.Crypto.{dec_encrypted_size_len}
use socket_collection.Error.{IoError, Res, is_retry}
use socket_collection.Mio.{TcpApi}
use socket_collection.Tcp.Reader.{LenDelimitedReader, put_buf, try_read}
use socket_collection.Tcp.Reader.Framed.{try_read-short}
use socket_collection.Tcp.Reader.Fragments.{put_buf-nil, put_buf-clean}
use socket_collection.Tcp.Delivery.{try_reads, delivered}
use socket_collection.Tcp.Inner.{Inner, read, with_reader}
use socket_collection.Tcp.Inner.Receive.{Receives, failed, read-Receives, read-buffered}

module _ {ℓ} {A : Type ℓ} {a b : A} {l m : List A} where
  pub cons-head : a ∷ l ≡ b ∷ m → a ≡ b
  cons-head h = cc

  pub cons-tail : a ∷ l ≡ b ∷ m → l ≡ m
  cons-tail h = cc

pub ok-none-some :
    {E T R : Type 0} {r r' : R} {v : T}
    → ¬ ◌≡◌ {A = Result E (Option T) × R} (ok none, r) (ok (some v), r')
ok-none-some h = cc

module _ {x : Crates} {api : TcpApi x} {T : Type 0} (c : Codec x T) (u32 : Codec x ℕ)
    (fuel : ℕ) where
  -- `read` called so many times.
  abbrev pub inner_reads : ℕ → Inner api → Run (List (Res x (Option T)) × Inner api)
  inner_reads zero s = done ([], s)
  inner_reads (suc n) s = do
    (result, s') ← read c u32 fuel s
    (results, last) ← inner_reads n s'
    done (result ∷ results, last)

  -- The messages that the reader has are returned, and the stream is not touched.
  pub inner_reads-buffered :
      (vs : List T) (s : Inner api) (r : LenDelimitedReader x)
      → try_reads c u32 (length vs) s.msg_reader ≡ (delivered c u32 vs, r)
      → inner_reads (length vs) s ≡ done (delivered c u32 vs, record s { msg_reader = r })
  inner_reads-buffered [] s r h = ap (λ t. done ([], record s { msg_reader = t.1 })) h
  inner_reads-buffered (v ∷ vs) s r h =
      let r' = (try_read c u32 s.msg_reader).1 in
      let first : (try_read c u32 s.msg_reader).0 ≡ ok (some v) = cons-head (ap (λ t. t.0) h) in
      let later : try_reads c u32 (length vs) r' ≡ (delivered c u32 vs, r) =
        ap₂ (λ l t. (l, t)) (cons-tail (ap (λ t. t.0) h)) (ap (λ t. t.1) h) in
      rw
        (
          read-buffered c u32 fuel s r' (ok (some v)) (ap (λ t. (t, r')) first) (λ e. ground arith),
          inner_reads-buffered vs (record s { msg_reader = r' }) r later,
        )
        refl

  -- The first call takes all that the stream gives.
  pub inner_read-first :
      {n : ℕ} {st' : api.Stream} {bs : Bytes} {e : IoError} (v : T) (s : Inner api)
      (r : LenDelimitedReader x)
      → try_read c u32 s.msg_reader ≡ (ok none, s.msg_reader)
      → Receives api n s.stream bs (failed e) st'
      → n < fuel
      → is_retry e.kind ≡ true
      → try_read c u32 (put_buf s.msg_reader bs) ≡ (ok (some v), r)
      → read c u32 fuel s ≡ done (ok (some v), record s { stream = st'; msg_reader = r })
  unfolding with_reader
  inner_read-first {bs = []} v s r idle d enough retry h =
      let h' = ap (try_read c u32) (sym (put_buf-nil s.msg_reader)) ∙ h in
      absurd (ok-none-some (sym idle ∙ h'))
  inner_read-first {bs = b ∷ bs} v s r idle d enough retry h =
      read-Receives c u32 fuel s s.msg_reader idle d enough ∙ rw (retry, h) refl

module _ {x : Crates} {api : TcpApi x} {T : Type 0} (c : Codec x T) (u32 : Codec x ℕ) where
  -- What the buffer of an idle, empty reader with these bytes holds is what the calls of `read`
  -- return.
  pub try_reads-inner_reads :
      {n fuel : ℕ} {st' : api.Stream} {bs : Bytes} {e : IoError} (v : T) (vs : List T)
      (t : Inner api)
      → t.msg_reader.read_len ≡ 0
      → t.msg_reader.read_buffer ≡ []
      → 0 < dec_encrypted_size_len t.msg_reader.dec_ctx
      → Receives api n t.stream bs (failed e) st'
      → n < fuel
      → is_retry e.kind ≡ true
      → try_reads c u32 (suc (length vs)) (record t.msg_reader { read_buffer = bs })
        ≡ (delivered c u32 (v ∷ vs), t.msg_reader)
      → inner_reads c u32 fuel (suc (length vs)) t
        ≡ done (delivered c u32 (v ∷ vs), record t { stream = st' })
  try_reads-inner_reads {fuel = fuel} {st'} {bs} v vs t idle clean some_size d enough retry h =
      let r : LenDelimitedReader x = record t.msg_reader { read_buffer = bs } in
      let r' = (try_read c u32 r).1 in
      let nothing =
        try_read-short c u32 t.msg_reader idle (omega (arith, some_size, ap length clean)) in
      let first : try_read c u32 r ≡ (ok (some v), r') =
        ap (λ o. (o, r')) (cons-head (ap (λ t. t.0) h)) in
      let later : try_reads c u32 (length vs) r' ≡ (delivered c u32 vs, t.msg_reader) =
        ap₂ (λ l t. (l, t)) (cons-tail (ap (λ t. t.0) h)) (ap (λ t. t.1) h) in
      rw
        (
          inner_read-first c u32 fuel v t r' nothing d enough retry
              (ap (try_read c u32) (put_buf-clean t.msg_reader bs clean) ∙ first),
          inner_reads-buffered c u32 fuel vs (record t { stream = st'; msg_reader = r' })
              t.msg_reader later,
        )
        refl
