-- ===== src/Tcp/Inner/Live.antt =====
-- One flush of src/tcp.rs on a live connection: everything is sent, or less is left to do.
use socket_collection.Base.{
  ℕ, ◌≤◌, ◌<◌, ◌≡◌, refl, sym, ap, ◌∙◌, [], ◌∷◌, Option, none, some, ok, err, Result, Bool, true,
  false, length, concat, Run, done, panic, out_of_fuel, arith, inl, inr, ◌⊎◌,
}
use socket_collection.Base.Loop.{Flow, again, return, loop_rule, Progress}
use socket_collection.Env.{Crates, Bytes}
use socket_collection.Error.{IoError, Res, is_retry}
use socket_collection.OutQueue.Refinement.{IsWellFormed, queued}
use socket_collection.OutQueue.Cut.{Continues-self}
use socket_collection.OutQueue.Waiting.{Takes, waiting, messages, take_or_next-Takes}
use socket_collection.Mio.{TcpApi}
use socket_collection.Tcp.Inner.{
  Inner, next_data, after_write, write_round, flush_round, flush_write_until_would_block,
}
use socket_collection.Tcp.Inner.Pending.{SendLaws, work}
use socket_collection.Tcp.Inner.Flush.{Conserves, Holds, Flushed, flush_round-Progress}

-- What a live connection promises: its errors are to be retried, and after each time that it would
-- block it becomes writable again, which sends nothing by itself and is when the socket is polled,
-- and then takes something.
pub record LiveLaws {x : Crates} {api : TcpApi x} (laws : SendLaws api) : Type 0 where
  pub writable : api.Stream → api.Stream
  pub untouched : (s : api.Stream) → laws.wire (writable s) ≡ laws.wire s
  pub takes :
      (s : api.Stream) (bytes : Bytes)
      → (n : ℕ) × (s' : api.Stream) × (api.write (writable s) bytes ≡ (ok n, s'))
  pub retries :
      (s s' : api.Stream) (bytes : Bytes) (e : IoError)
      → api.write s bytes ≡ (err e, s')
      → is_retry e.kind ≡ true

ok-ne-err :
    {A B C : Type 0} {a : A} {c c' : C} {e : B} → ¬ ◌≡◌ {A = Result B A × C} (ok a, c) (err e, c')
ok-ne-err h = cc

module _ {x : Crates} {api : TcpApi x} (laws : SendLaws api) (live : LiveLaws laws) where
  abbrev Blocks : api.Stream → Type 0
  Blocks s = (bytes : Bytes) × (e : IoError) × (s' : api.Stream) × (api.write s bytes ≡ (err e, s'))

  -- A round returns false only on a stream that blocks, and then leaves as much to do as before.
  abbrev Returns : Inner api → Run (Flow (Res x Bool × Inner api) (Inner api)) → Type 0
  Returns t panic = Unit {0}
  Returns t out_of_fuel = Unit {0}
  Returns t (done (again s)) = Unit {0}
  Returns t (done (return (ok true, s))) = Unit {0}
  Returns t (done (return (ok false, s))) = (work s ≤ work t) × Blocks t.stream
  Returns t (done (return (err e, s))) = ⊥

  after_write-Returns :
      (t s : Inner api) (bytes : Bytes) (r : Result IoError ℕ × api.Stream)
      → s.stream ≡ t.stream
      → waiting t.current_write t.out_queue ≡ bytes ∷ messages (queued s.out_queue)
      → api.write s.stream bytes ≡ r
      → Returns t (done (after_write s bytes r))
  unfolding after_write
  after_write-Returns t s bytes (ok n, stream) same taken h = ground arith
  after_write-Returns t s bytes (err e, stream) same taken h =
      let retry = live.retries s.stream stream bytes e h in
      rw (retry, after_write)
        (
          omega (arith, ap length taken, ap (λ l. length (concat l)) taken),
          (bytes, e, stream, ap (λ k. api.write k bytes) (sym same) ∙ h),
        )

  write_round-Returns :
      (t s : Inner api) (o : Option Bytes)
      → s.stream ≡ t.stream
      → Takes (waiting t.current_write t.out_queue) o (messages (queued s.out_queue))
      → Returns t (done (write_round (o, s)))
  unfolding write_round
  write_round-Returns t s none same taken = tt
  write_round-Returns t s (some bytes) same taken =
      after_write-Returns t s bytes (api.write s.stream bytes) same taken refl

  flush_round-Returns : (t : Inner api) → IsWellFormed t.out_queue → Returns t (flush_round t)
  unfolding flush_round next_data
  flush_round-Returns t w =
      let (r, e, taken, w', conf) = take_or_next-Takes t.current_write t.out_queue w in
      rw e
        (write_round-Returns t (record t { current_write = none; out_queue = r.1 }) r.0 refl taken)

  module _ (stream : api.Stream) (m : ℕ) where
    -- The stream has just become writable, or less than `m` is left to do.
    abbrev pub Advances : Inner api → Type 0
    Advances t =
        IsWellFormed t.out_queue
        × (((t.stream ≡ live.writable stream) × (work t ≤ m)) ⊎ (work t < m))

    abbrev pub Advanced : Res x Bool × Inner api → Type 0
    Advanced (ok b, s) =
        IsWellFormed s.out_queue × ((waiting s.current_write s.out_queue ≡ []) ⊎ (work s < m))
    Advanced (err e, s) = ⊥

    work-Advances : (t : Inner api) → Advances t → work t ≤ m
    work-Advances t (w, inl (same, le)) = le
    work-Advances t (w, inr lower) = omega (arith, lower)

    -- A stream that has just become writable does not block.
    blocked-Advances :
        (t s : Inner api) → Advances t → work s ≤ work t → Blocks t.stream → work s < m
    blocked-Advances t s (w, inl (same, le)) less (bytes, e, s', h) =
        let (n, s'', taken) = live.takes stream bytes in
        absurd (ok-ne-err (sym taken ∙ ap (λ k. api.write k bytes) (sym same) ∙ h))
    blocked-Advances t s (w, inr lower) less b = omega (arith, lower, less)

    round-Advances :
        (t : Inner api) (o : Run (Flow (Res x Bool × Inner api) (Inner api)))
        → Advances t
        → Progress (Holds laws t) (Flushed laws t) work (work t) o
        → Returns t o
        → Progress Advances Advanced work (work t) o
    round-Advances t panic a p r = p
    round-Advances t out_of_fuel a p r = p
    round-Advances t (done (again s)) a (v, lower) r =
        ((v.0.ordered, inr (omega (arith, lower, work-Advances t a))), lower)
    round-Advances t (done (return (ok true, s))) a (v, nothing) r = (v.ordered, inl nothing)
    round-Advances t (done (return (ok false, s))) a (v, rest) (less, blocks) =
        (v.ordered, inr (blocked-Advances t s a less blocks))
    round-Advances t (done (return (err e, s))) a p r = absurd r

    flush_round-Advances :
        (t : Inner api) → Advances t → Progress Advances Advanced work (work t) (flush_round t)
    flush_round-Advances t a =
        round-Advances t (flush_round t) a
          (flush_round-Progress laws t t (
            record {
              bytes = refl;
              ordered = a.0;
              kept = record { reader = refl; context = refl; conf = refl };
            },
            Continues-self (waiting t.current_write t.out_queue),
          ))
          (flush_round-Returns t a.0)

    pub flush-Advanced :
        (fuel : ℕ) (s : Inner api)
        → Advances s
        → work s < fuel
        → (r : Res x Bool × Inner api) × (flush_write_until_would_block fuel s ≡ done r)
          × Advanced r
    unfolding flush_write_until_would_block
    flush-Advanced fuel s a enough =
        loop_rule Advances Advanced work flush_round flush_round-Advances fuel s enough a

  pub Advanced-Conserves :
      (stream : api.Stream) (m : ℕ) (d : Inner api) (r : Res x Bool × Inner api)
      → Advanced stream m r
      → Flushed laws d r
      → Conserves laws d r.1 []
  Advanced-Conserves stream m d (ok true, s) a (v, nothing) = v
  Advanced-Conserves stream m d (ok false, s) a (v, rest) = v
  Advanced-Conserves stream m d (err e, s) a f = absurd a

  pub Advanced-result :
      (stream : api.Stream) (m : ℕ) (r : Res x Bool × Inner api)
      → Advanced stream m r
      → IsWellFormed r.1.out_queue
        × ((waiting r.1.current_write r.1.out_queue ≡ []) ⊎ (work r.1 < m))
  Advanced-result stream m (ok b, s) a = a
  Advanced-result stream m (err e, s) a = absurd a
