-- ===== src/Tcp/Inner/Polls.antt =====
-- A socket of src/tcp.rs that is polled until nothing waits.
use socket_collection.Base.{ℕ, zero, suc, ◌<◌, ◌≡◌, [], none, Run, done, ◌>>=◌, ◌⊎◌}
use socket_collection.Env.{Crates, Codec}
use socket_collection.OutQueue.{Instant, Clock}
use socket_collection.OutQueue.Refinement.{IsWellFormed}
use socket_collection.OutQueue.Waiting.{waiting}
use socket_collection.Mio.{TcpApi}
use socket_collection.Tcp.Inner.{Inner, write}
use socket_collection.Tcp.Inner.Pending.{SendLaws, work}
use socket_collection.Tcp.Inner.Sent.{HandsOver}
use socket_collection.Tcp.Inner.Live.{LiveLaws}

module _ {x : Crates} {api : TcpApi x} {laws : SendLaws api} {T : Type 0} (c : Codec x T)
    (u32 : Codec x ℕ) (live : LiveLaws laws) (fuel : ℕ) (nonces : x.Nonce × x.Nonce) (clock : Clock)
    (now : Instant) where
  -- The application calls `write` without a message each time that the stream has become writable,
  -- so many times.
  abbrev pub polls : ℕ → Inner api → Run (Inner api)
  polls zero s = done s
  polls (suc k) s = do
    (result, s') ←
        write c u32 fuel (record s { stream = live.writable s.stream }) nonces clock now none
    polls k s'

  -- What one poll leaves.
  abbrev Polled : Inner api → Inner api → Type 0
  Polled s t =
      IsWellFormed t.out_queue
      × ((waiting t.current_write t.out_queue ≡ []) ⊎ (work t < work s))
      × HandsOver laws s t

  -- So many polls end with nothing that waits, and all that was not dropped handed over.
  abbrev Drains : ℕ → Inner api → Type 0
  Drains k s =
      (s' : Inner api) × (polls k s ≡ done s')
      × (waiting s'.current_write s'.out_queue ≡ [])
      × HandsOver laws s s'
