-- ===== src/Tcp/Session/Uniform.antt =====
-- A session of src/tcp.rs in which all messages have one priority.
use socket_collection.Base.{
  ℕ, ◌<◌, ◌≡◌, refl, sym, subst, ◌∙◌, List, [], ◌∷◌, none, true, length, done, arith, All, ◌==◌,
  Bool-cases, inl, inr,
}
use socket_collection.Env.{Crates, Codec, Keys, RoundTrips, FixedSizes}
use socket_collection.Error.{IoError, is_retry}
use socket_collection.Crypto.{Matching}
use socket_collection.Config.{Priority}
use socket_collection.OutQueue.Order.{Entry}
use socket_collection.OutQueue.Refinement.{IsWellFormed, queued}
use socket_collection.OutQueue.Waiting.{waiting, messages}
use socket_collection.OutQueue.Fates.{of_priority, Survives}
use socket_collection.Mio.{TcpApi}
use socket_collection.Tcp.Inner.{Inner}
use socket_collection.Tcp.Inner.Pending.{SendLaws}
use socket_collection.Tcp.Inner.Receive.{Receives, failed}
use socket_collection.Tcp.Inner.Reads.{inner_reads}
use socket_collection.Tcp.Delivery.{delivered}
use socket_collection.Tcp.Session.{Session}
use socket_collection.Tcp.Session.Received.{Session-inner_reads}
use mathlib.Core.List.{Sublistᴰ}
use mathlib.Core.List.Sublistᴰ

module _ {A : Type 0} (p : Priority) where
  -- All messages have the same priority.
  abbrev pub IsUniform : List (Entry A) → Type 0
  IsUniform = All (λ e. ◌≡◌ {A = ℕ} e.priority p)

  of_priority-IsUniform : (l : List (Entry A)) → IsUniform l → of_priority p l ≡ l
  of_priority-IsUniform [] u = refl
  of_priority-IsUniform (e ∷ l) u = ground (arith, of_priority-IsUniform l u.1)

  of_priority-other :
      (q : Priority) (l : List (Entry A)) → ¬ q ≡ p → IsUniform l → of_priority q l ≡ []
  of_priority-other q [] d u = refl
  of_priority-other q (e ∷ l) d u = ground (arith, of_priority-other q l d u.1)

  -- A message of the list is among those of its own priority.
  IsUniform-of_priority :
      (l : List (Entry A)) → ((q : Priority) → ¬ q ≡ p → of_priority q l ≡ []) → IsUniform l
  IsUniform-of_priority [] h = tt
  IsUniform-of_priority (e ∷ l) h = elim (Bool-cases (e.priority == p)) [
    | inl same ↦ (ground arith, IsUniform-of_priority l (λ q d. ground (arith, h q d)))
    | inr differs ↦ absurd (ground (arith, h e.priority (λ same. ground arith)))
  ]

  -- Messages of one priority below the drop priority all survive, in order.
  pub Survives-IsUniform :
      (low : Priority) (us vs : List (Entry A))
      → p < low
      → IsUniform vs
      → Survives low us vs
      → us ≡ vs
  Survives-IsUniform low us vs below u h =
      let u' : IsUniform us = IsUniform-of_priority us (λ q d.
        Sublistᴰ.eq-nil
          (subst (Sublistᴰ (of_priority q us)) (of_priority-other q vs d u) (h q).0)) in
      sym (of_priority-IsUniform us u') ∙ (h p).1 below ∙ of_priority-IsUniform vs u

module _ {x : Crates} {T : Type 0} (c : Codec x T) (u32 : Codec x ℕ) {api : TcpApi x} (p : Priority)
    (limit : ℕ) where
  -- In a session in which all messages have one priority below the drop priority, the calls of
  -- `read` return exactly the messages written, in the order of the writes.
  pub Session-inner_reads_uniform :
      (k : Keys x)
      → RoundTrips k c
      → RoundTrips k u32
      → FixedSizes u32
      → (laws : SendLaws api) (vs : List (Entry T)) (s0 s t : Inner api) → laws.wire s0.stream ≡ []
      → s0.current_write ≡ none
      → IsWellFormed s0.out_queue
      → queued s0.out_queue ≡ []
      → p < s0.out_queue.conf.msg_drop_priority
      → IsUniform p vs
      → Session c u32 limit laws s0 vs s
      → waiting s.current_write s.out_queue ≡ []
      → 0 < length (laws.wire s.stream)
      → t.msg_reader.max_payload_size ≡ limit
      → Matching k s0.enc_ctx t.msg_reader.dec_ctx
      → t.msg_reader.read_len ≡ 0
      → t.msg_reader.read_buffer ≡ []
      → {n : ℕ} {st' : api.Stream} {e : IoError} (fuel : ℕ)
      → Receives api n t.stream (laws.wire s.stream) (failed e) st'
      → is_retry e.kind ≡ true
      → n < fuel
      → inner_reads c u32 fuel (length vs) t
        ≡ done (delivered c u32 (messages vs), record t { stream = st' })
  Session-inner_reads_uniform k tc tu fixed laws vs s0 s t fresh none_begun w empty low u session
        sent some_bytes size a idle clean {st'} fuel d retry enough =
      let (us, survives, h) =
        Session-inner_reads c u32 limit k tc tu fixed laws vs s0 s t fresh none_begun w empty
          session sent some_bytes size a idle clean fuel d retry enough in
      subst
        (λ l.
          inner_reads c u32 fuel (length l) t
          ≡ done (delivered c u32 (messages l), record t { stream = st' }))
        (Survives-IsUniform p _ us vs low u survives) h
