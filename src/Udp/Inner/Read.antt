-- ===== src/Udp/Inner/Read.antt =====
-- `read` and `read_frm` of src/udp.rs: which datagrams they return, and that they end.
use mathlib.Core.List.{Forall₂}
use socket_collection.Base.{
  ℕ, zero, suc, ◌<◌, ◌≡◌, refl, ap, ap₂, List, [], ◌∷◌, map, length, Option, some, ok, true, Run,
  done, ◌>>=◌, arith,
}
use socket_collection.Env.{Crates, Codec, Bytes}
use socket_collection.Error.{IoError, Res, is_retry}
use socket_collection.Crypto.{DecryptContext, decrypt}
use socket_collection.Mio.{UdpApi}
use socket_collection.Udp.Handlers.{bytes_is_empty, pair_is_empty}
use socket_collection.Udp.Inbox.{deliver}
use socket_collection.Udp.Inbox.Receive.{
  Arrives, RecvLaws, Arrives-total, kept, conclude, loop-Arrives,
}
use socket_collection.Udp.Inner.{
  Inner, recv_bytes, recv_pair, decrypt_pair, with_inbox, with_inbox_2, read_from, read,
  read_frm_from, read_frm,
}

module _ {x : Crates} {T : Type 0} (c : Codec x T) (ctx : DecryptContext x) where
  -- A datagram that decrypts to the message, and came from the address that is with it.
  abbrev pub Carries : Bytes × x.SocketAddr → T × x.SocketAddr → Type 0
  Carries m v = (decrypt c ctx m.0 ≡ ok v.0) × (m.1 ≡ v.1)

  Carries-deliver :
      (m : Bytes × x.SocketAddr) (v : T × x.SocketAddr)
      → Carries m v
      → deliver (decrypt_pair c ctx) (some m) ≡ ok (some v)
  unfolding deliver
  Carries-deliver (bytes, from) (v, addr) (e, same) = ground arith

  Carries-all :
      {ms : List (Bytes × x.SocketAddr)} {vs : List (T × x.SocketAddr)}
      → Forall₂ Carries ms vs
      → map (λ m. deliver (decrypt_pair c ctx) (some m)) ms ≡ map (λ v. ok (some v)) vs
  Carries-all Forall₂.nil = refl
  Carries-all (Forall₂.cons {a = m} {b = v} r rs) = ap₂ ◌∷◌ (Carries-deliver m v r) (Carries-all rs)

  Carries-length :
      {ms : List (Bytes × x.SocketAddr)} {vs : List (T × x.SocketAddr)}
      → Forall₂ Carries ms vs
      → length ms ≡ length vs
  Carries-length Forall₂.nil = refl
  Carries-length (Forall₂.cons r rs) = ap suc (Carries-length rs)

module _ {x : Crates} {api : UdpApi x} {T : Type 0} (c : Codec x T) where
  -- A buffered datagram is decrypted and returned, and the socket not touched.
  read-buffered :
      (fuel : ℕ) (s : Inner api) (bytes : Bytes) (buffer : List Bytes)
      → s.read_buffer ≡ bytes ∷ buffer
      → read c fuel s
        ≡ done (deliver (decrypt c s.dec_ctx) (some bytes), record s { read_buffer = buffer })
  unfolding read read_from
  read-buffered fuel s bytes buffer e = rw e

  -- With an empty buffer, and enough fuel for what arrives before the socket stops, `read` takes in
  -- all datagrams that are not empty. If the socket only has no more for now, the first of them is
  -- decrypted and returned, `None` if there is none, and the others are buffered in order;
  -- on any other error that error is returned and all of them are buffered.
  pub read-Arrives :
      (fuel : ℕ) (s : Inner api) {n : ℕ} {sock : api.Sock} {ms : List Bytes} {error : IoError}
      → s.read_buffer ≡ []
      → Arrives (recv_bytes api) n s.sock ms error sock
      → n < fuel
      → read c fuel s
        ≡ done (
            with_inbox c s (
              conclude bytes_is_empty
                (decrypt c s.dec_ctx)
                (recv_bytes api)
                error
                (kept bytes_is_empty ms)
                sock))
  unfolding read read_from
  read-Arrives fuel s e d enough =
      rw (e, loop-Arrives bytes_is_empty (decrypt c s.dec_ctx) (recv_bytes api) fuel [] d enough)

  -- `read_frm` does the same with its own buffer, and keeps the sender's address with the message.
  read_frm-Arrives :
      (fuel : ℕ) (s : Inner api) {n : ℕ} {sock : api.Sock} {ms : List (Bytes × x.SocketAddr)}
      → {error : IoError} → s.read_buffer_2 ≡ []
      → Arrives (recv_pair api) n s.sock ms error sock
      → n < fuel
      → read_frm c fuel s
        ≡ done (
            with_inbox_2 c s (
              conclude pair_is_empty
                (decrypt_pair c s.dec_ctx)
                (recv_pair api)
                error
                (kept pair_is_empty ms)
                sock))
  unfolding read_frm read_frm_from
  read_frm-Arrives fuel s e d enough =
      rw (e, loop-Arrives pair_is_empty (decrypt_pair c s.dec_ctx) (recv_pair api) fuel [] d enough)

  -- The user's side: `read` is called so many times, one after the other.
  abbrev pub read_times : ℕ → ℕ → Inner api → Run (List (Res x (Option T)) × Inner api)
  read_times zero fuel s = done ([], s)
  read_times (suc k) fuel s = do
    (result, s') ← read c fuel s
    (results, last) ← read_times k fuel s'
    done (result ∷ results, last)

  read_times-buffered :
      (fuel : ℕ) (s : Inner api) (buffer : List Bytes)
      → s.read_buffer ≡ buffer
      → read_times (length buffer) fuel s
        ≡ done (
          map (λ b. deliver (decrypt c s.dec_ctx) (some b)) buffer,
          record s { read_buffer = [] },
        )
  read_times-buffered fuel s [] e = ap (λ b. done ([], record s { read_buffer = b })) e
  read_times-buffered fuel s (b ∷ buffer) e = rw (
    read-buffered fuel s b buffer e,
    read_times-buffered fuel (record s { read_buffer = buffer }) buffer refl,
  )

  -- With an empty buffer, enough fuel, and a socket that gives some datagrams until it would block,
  -- as many calls of `read` as there are datagrams that are not empty return them all, decrypted
  -- one by one, in the order of their arrival.
  pub read_times-Arrives :
      (fuel : ℕ) (s : Inner api) {n : ℕ} {sock : api.Sock} {ms : List Bytes} {error : IoError}
      → (m : Bytes) (rest : List Bytes) → s.read_buffer ≡ []
      → Arrives (recv_bytes api) n s.sock ms error sock
      → is_retry error.kind ≡ true
      → kept bytes_is_empty ms ≡ m ∷ rest
      → n < fuel
      → read_times (suc (length rest)) fuel s
        ≡ done (
          map (λ b. deliver (decrypt c s.dec_ctx) (some b)) (m ∷ rest),
          record s { sock = sock; read_buffer = [] },
        )
  read_times-Arrives fuel s m rest e d retry k enough = rw (
    read-Arrives fuel s e d enough,
    k,
    retry,
    read_times-buffered fuel (record s { sock = _; read_buffer = rest }) rest refl,
  )

  -- The same for `read_frm`.
  abbrev pub read_frm_times :
      ℕ → ℕ → Inner api → Run (List (Res x (Option (T × x.SocketAddr))) × Inner api)
  read_frm_times zero fuel s = done ([], s)
  read_frm_times (suc k) fuel s = do
    (result, s') ← read_frm c fuel s
    (results, last) ← read_frm_times k fuel s'
    done (result ∷ results, last)

  read_frm_times-buffered :
      (fuel : ℕ) (s : Inner api) (buffer : List (Bytes × x.SocketAddr))
      → s.read_buffer_2 ≡ buffer
      → read_frm_times (length buffer) fuel s
        ≡ done (
          map (λ m. deliver (decrypt_pair c s.dec_ctx) (some m)) buffer,
          record s { read_buffer_2 = [] },
        )
  unfolding read_frm read_frm_from
  read_frm_times-buffered fuel s [] e = ap (λ b. done ([], record s { read_buffer_2 = b })) e
  read_frm_times-buffered fuel s (m ∷ buffer) e =
      rw (e, read_frm_times-buffered fuel (record s { read_buffer_2 = buffer }) buffer refl)

  -- With an empty second buffer, enough fuel, and a socket that gives some datagrams until it would
  -- block, of which those that are not empty decrypt to some messages, at least one, as many calls
  -- of `read_frm` return just these messages, each with the address that its datagram came from,
  -- in the order of their arrival, and leave the second buffer empty.
  pub read_frm_times-Arrives :
      (fuel : ℕ) (s : Inner api) {n : ℕ} {sock : api.Sock} {ms : List (Bytes × x.SocketAddr)}
      → {error : IoError} (v : T × x.SocketAddr) (vs : List (T × x.SocketAddr))
      → s.read_buffer_2 ≡ []
      → Arrives (recv_pair api) n s.sock ms error sock
      → is_retry error.kind ≡ true
      → Forall₂ (Carries c s.dec_ctx) (kept pair_is_empty ms) (v ∷ vs)
      → n < fuel
      → read_frm_times (suc (length vs)) fuel s
        ≡ done (map (λ u. ok (some u)) (v ∷ vs), record s { sock = sock; read_buffer_2 = [] })
  read_frm_times-Arrives fuel s {sock = sock} {ms = ms} v vs e d retry carried enough =
      first (kept pair_is_empty ms) refl carried
    where
      first :
          (l : List (Bytes × x.SocketAddr))
          → kept pair_is_empty ms ≡ l
          → Forall₂ (Carries c s.dec_ctx) l (v ∷ vs)
          → read_frm_times (suc (length vs)) fuel s
            ≡ done (map (λ u. ok (some u)) (v ∷ vs), record s { sock = sock; read_buffer_2 = [] })
      first [] k f = elim f [ ]
      first (m ∷ rest) k (Forall₂.cons r rs) = rw (
        read_frm-Arrives fuel s e d enough,
        k,
        retry,
        ← Carries-length c s.dec_ctx rs,
        read_frm_times-buffered fuel (record s { sock = sock; read_buffer_2 = rest }) rest refl,
        Carries-all c s.dec_ctx rs,
        Carries-deliver c s.dec_ctx m v r,
      )

  read-ends :
      (laws : RecvLaws (recv_bytes api)) (fuel : ℕ) (s : Inner api) (buffer : List Bytes)
      → s.read_buffer ≡ buffer
      → laws.readable s.sock < fuel
      → (r : Res x (Option T) × Inner api) × (read c fuel s ≡ done r)
  read-ends laws fuel s [] e enough =
      let (n, ms, error, sock, d, le) = Arrives-total (recv_bytes api) laws fuel s.sock enough in
      (_, read-Arrives fuel s e d (omega arith))
  read-ends laws fuel s (b ∷ buffer) e enough = (_, read-buffered fuel s b buffer e)

  read_frm-ends :
      (laws : RecvLaws (recv_pair api)) (fuel : ℕ) (s : Inner api)
      → (buffer : List (Bytes × x.SocketAddr)) → s.read_buffer_2 ≡ buffer
      → laws.readable s.sock < fuel
      → (r : Res x (Option (T × x.SocketAddr)) × Inner api) × (read_frm c fuel s ≡ done r)
  unfolding read_frm read_frm_from
  read_frm-ends laws fuel s [] e enough =
      let (n, ms, error, sock, d, le) = Arrives-total (recv_pair api) laws fuel s.sock enough in
      (_, read_frm-Arrives fuel s e d (omega arith))
  read_frm-ends laws fuel s (b ∷ buffer) e enough =
      ((deliver (decrypt_pair c s.dec_ctx) (some b), record s { read_buffer_2 = buffer }), rw e)

  -- If only so many datagrams can be received before the socket stops, then `read` and `read_frm`
  -- return as soon as the fuel exceeds that number: their loops end.
  pub read_frm_total :
      (laws : RecvLaws (recv_bytes api)) (laws_2 : RecvLaws (recv_pair api)) (fuel : ℕ)
      → (s : Inner api) → laws.readable s.sock < fuel
      → laws_2.readable s.sock < fuel
      → ((r : Res x (Option T) × Inner api) × (read c fuel s ≡ done r))
        × ((r : Res x (Option (T × x.SocketAddr)) × Inner api) × (read_frm c fuel s ≡ done r))
  read_frm_total laws laws_2 fuel s enough enough_2 = (
    read-ends laws fuel s s.read_buffer refl enough,
    read_frm-ends laws_2 fuel s s.read_buffer_2 refl enough_2,
  )
