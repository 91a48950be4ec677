-- ===== src/Udp/Inbox/Receive.antt =====
-- The receiving loop of src/udp.rs: it ends, and gives the datagrams in the order of their arrival.
use socket_collection.Base.{
  ℕ, zero, suc, ◌≤◌, ◌<◌, ◌≡◌, refl, ◌∙◌, List, [], ◌∷◌, ◌++◌, Option, ok, err, Result, Bool-cases,
  inl, inr, done, arith, append_assoc, append-nil, if◌then◌else◌,
}
use socket_collection.Base.Loop.{loop, loop-return, loop-again}
use socket_collection.Env.{Crates}
use socket_collection.Error.{IoError, Res, io, is_retry}
use socket_collection.Udp.Handlers.{IsEmpty, handle_recv_res, front, rest}
use socket_collection.Udp.Inbox.{Inbox, deliver, after_recv, recv_round}

module _ {Sock M : Type 0} (recv : Sock → Result IoError M × Sock) where
  -- A socket that gives some datagrams, and then an error.
  pub data Arrives : ℕ → Sock → List M → IoError → Sock → Type 0 where
    stops : (s s' : Sock) (e : IoError) → recv s ≡ (err e, s') → Arrives 0 s [] e s'
    brings :
        {n : ℕ} {s s' s'' : Sock} {ms : List M} {e : IoError} (m : M)
        → recv s ≡ (ok m, s')
        → Arrives n s' ms e s''
        → Arrives (suc n) s (m ∷ ms) e s''

  -- A socket from which so many datagrams can be received before it stops.
  pub record RecvLaws : Type 0 where
    pub readable : Sock → ℕ
    pub recv_ok : (s s' : Sock) (m : M) → recv s ≡ (ok m, s') → readable s' < readable s

  abbrev pub Ends : RecvLaws → Sock → Type 0
  Ends laws s =
      (n : ℕ) × (ms : List M) × (e : IoError) × (s' : Sock) × Arrives n s ms e s'
      × (n ≤ laws.readable s)

  Ends-from :
      (laws : RecvLaws) (s : Sock) (r : Result IoError M × Sock)
      → recv s ≡ r
      → ((s' : Sock) → laws.readable s' < laws.readable s → Ends laws s')
      → Ends laws s
  Ends-from laws s (err e, s') p later = (0, [], e, s', stops s s' e p, omega arith)
  Ends-from laws s (ok m, s') p later =
      let lower = laws.recv_ok s s' m p in
      let (n, ms, e, s'', d, le) = later s' lower in
      (suc n, m ∷ ms, e, s'', brings m p d, omega (arith, lower))

  pub Arrives-total :
      (laws : RecvLaws) (bound : ℕ) (s : Sock) → laws.readable s < bound → Ends laws s
  Arrives-total laws zero s le = absurd (omega arith)
  Arrives-total laws (suc bound) s le =
      Ends-from laws s (recv s) refl (λ s' lower. Arrives-total laws bound s' (omega arith))

-- The datagrams that are kept: those that are not empty.
abbrev pub kept : {M : Type 0} → IsEmpty M → List M → List M
kept e [] = []
kept e (m ∷ ms) = if e.is_empty m then kept e ms else m ∷ kept e ms

module _ {x : Crates} {Sock M R : Type 0} (e : IsEmpty M) (decode : M → Res x R)
    (recv : Sock → Result IoError M × Sock) where
  -- The specification: of the buffered and the new datagrams the first is decoded and the others
  -- stay in the buffer; on another error than "would block" all of them stay.
  abbrev pub conclude : IoError → List M → Sock → Res x (Option R) × Inbox Sock M
  conclude error ms s =
      if is_retry error.kind
      then (deliver decode (front ms), (s, rest ms))
      else (err (io error), (s, ms))

  pub loop-Arrives :
      (fuel : ℕ) (buffer : List M) {n : ℕ} {s s' : Sock} {ms : List M} {error : IoError}
      → Arrives recv n s ms error s'
      → n < fuel
      → loop fuel (recv_round e decode recv) (s, buffer)
        ≡ done (conclude error (buffer ++ kept e ms) s')
  unfolding recv_round handle_recv_res after_recv
  loop-Arrives zero buffer d h = absurd (omega arith)
  loop-Arrives (suc fuel) buffer (stops s s' error p) h =
      loop-return fuel (recv_round e decode recv) _ _ (ground (arith, append-nil buffer))
  loop-Arrives (suc fuel) buffer (brings {s' = s'} {ms = ms} m p d) h =
      elim (Bool-cases (e.is_empty m)) [
        | inl empty ↦
            loop-again fuel (recv_round e decode recv) _ (s', buffer) (ground arith)
            ∙ rw empty (loop-Arrives fuel buffer d (omega arith))
        | inr full ↦
            loop-again fuel (recv_round e decode recv) _ (s', buffer ++ (m ∷ [])) (ground arith)
            ∙ rw (full, ← append_assoc buffer (m ∷ []) (kept e ms))
                (loop-Arrives fuel (buffer ++ (m ∷ [])) d (omega arith))
      ]
