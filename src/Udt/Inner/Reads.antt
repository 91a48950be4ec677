-- ===== src/Udt/Inner/Reads.antt =====
-- Calls of `read` of src/udt/udt_sock.rs, one after the other, on a socket that gives some bytes
-- and then would block.
use socket_collection.Base.{
  ℕ, zero, suc, ◌<◌, ◌≡◌, refl, sym, ap, ap₂, ◌∙◌, List, [], ◌∷◌, ◌++◌, Option, none, some, ok,
  true, length, Run, done, ◌>>=◌, arith, append-nil,
}
use socket_collection.Env.{Crates, Bytes}
use socket_collection.Error.{Res}
use socket_collection.Tcp.Inner.Reads.{cons-head, cons-tail, ok-none-some}
use socket_collection.Udt.Api.{UdtApi, Limits, ByteOrder, StreamCodec}
use socket_collection.Udt.Inner.{Inner, read_from_buffer, read_more, read}
use socket_collection.Udt.Inner.Buffer.{buffer_reads, messages_read, read_from_buffer-short}
use socket_collection.Udt.Inner.Buffer.Fragments.{extend}
use socket_collection.Udt.Inner.Receive.{Receives, failed, udt_read-Receives}

module _ {x : Crates} {api : UdtApi x} {T : Type 0} (limits : Limits) (order : ByteOrder)
    (c : StreamCodec x T) (fuel : ℕ) where
  -- `read` called so many times.
  abbrev pub udt_reads :
      ℕ → Inner api → api.Net → Run (List (Res x (Option T)) × Inner api × api.Net)
  udt_reads zero s net = done ([], s, net)
  udt_reads (suc n) s net = do
    ((result, s'), net') ← read limits order c fuel s net
    (results, last, rest) ← udt_reads n s' net'
    done (result ∷ results, last, rest)

  -- A buffered message is returned, and the library is not asked.
  read-buffered :
      (v : T) (s s' : Inner api) (net : api.Net)
      → read_from_buffer limits order c s ≡ (ok (some v), s')
      → read limits order c fuel s net ≡ done ((ok (some v), s'), net)
  unfolding read read_more
  read-buffered v s s' net h = rw h

  udt_reads-buffered :
      (vs : List T) (s s' : Inner api) (net : api.Net)
      → buffer_reads limits order c (length vs) s ≡ (messages_read vs, s')
      → udt_reads (length vs) s net ≡ done (messages_read vs, s', net)
  udt_reads-buffered [] s s' net h = ap (λ t. done ([], t.1, net)) h
  udt_reads-buffered (v ∷ vs) s s' net h =
      let s'' = (read_from_buffer limits order c s).1 in
      let first : (read_from_buffer limits order c s).0 ≡ ok (some v) =
        cons-head (ap (λ t. t.0) h) in
      let later : buffer_reads limits order c (length vs) s'' ≡ (messages_read vs, s') =
        ap₂ (λ l t. (l, t)) (cons-tail (ap (λ t. t.0) h)) (ap (λ t. t.1) h) in
      rw
        (
          read-buffered v s s'' net (ap (λ r. (r, s'')) first),
          udt_reads-buffered vs s'' s' net later,
        )
        refl

  -- The first call takes all that the socket gives.
  read-first :
      {k : ℕ} {net net' : api.Net} {bs : Bytes} {e : api.Failure} (v : T) (s s' : Inner api)
      → read_from_buffer limits order c s ≡ (ok none, s)
      → Receives api s.stream k net bs (failed e) net'
      → k < fuel
      → api.is_easyncrcv e ≡ true
      → read_from_buffer limits order c (extend s bs) ≡ (ok (some v), s')
      → read limits order c fuel s net ≡ done ((ok (some v), s'), net')
  read-first {bs = []} v s s' idle d enough retry h =
      let h' =
        ap (λ b. read_from_buffer limits order c (record s { read_buffer = b }))
          (sym (append-nil s.read_buffer))
        ∙ h in
      absurd (ok-none-some (sym idle ∙ h'))
  read-first {bs = b ∷ bs} v s s' idle d enough retry h =
      udt_read-Receives limits order c fuel s s idle d enough ∙ rw (retry, h)

  -- What the buffer of an idle, empty socket with these bytes holds is what the calls of `read`
  -- return.
  pub buffer_reads-udt_reads :
      {k : ℕ} {net net' : api.Net} {bs : Bytes} {e : api.Failure} (v : T) (vs : List T)
      (s : Inner api)
      → s.read_len ≡ 0
      → s.read_buffer ≡ []
      → Receives api s.stream k net bs (failed e) net'
      → k < fuel
      → api.is_easyncrcv e ≡ true
      → buffer_reads limits order c (suc (length vs)) (record s { read_buffer = bs })
        ≡ (messages_read (v ∷ vs), s)
      → udt_reads (suc (length vs)) s net ≡ done (messages_read (v ∷ vs), s, net')
  buffer_reads-udt_reads {net = net} {net'} {bs} v vs s idle clean d enough retry h =
      let r : Inner api = record s { read_buffer = bs } in
      let s'' = (read_from_buffer limits order c r).1 in
      let nothing = read_from_buffer-short limits order c s idle (omega (arith, ap length clean)) in
      let first : (read_from_buffer limits order c r).0 ≡ ok (some v) =
        cons-head (ap (λ t. t.0) h) in
      let later : buffer_reads limits order c (length vs) s'' ≡ (messages_read vs, s) =
        ap₂ (λ l t. (l, t)) (cons-tail (ap (λ t. t.0) h)) (ap (λ t. t.1) h) in
      let taken =
        ap (λ b. read_from_buffer limits order c (record s { read_buffer = b ++ bs })) clean
        ∙ ap (λ o. (o, s'')) first in
      rw (read-first v s s'' nothing d enough retry taken, udt_reads-buffered vs s'' s net' later)
        refl
