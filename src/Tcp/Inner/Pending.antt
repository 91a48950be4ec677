-- ===== src/Tcp/Inner/Pending.antt =====
-- The bytes that `Inner` of src/tcp.rs has still to send, and where the next of them come from.
use socket_collection.Base.{ℕ, ◌+◌, ◌≤◌, ◌<◌, ◌≡◌, ◌++◌, ok, err, length, take, concat}
use socket_collection.Env.{Crates, Bytes}
use socket_collection.Error.{IoError}
use socket_collection.OutQueue.Waiting.{waiting}
use socket_collection.Mio.{TcpApi}
use socket_collection.Tcp.Inner.{Inner}

-- What a stream promises of `write`: it accepts a beginning of what it is given, a byte at least of
-- what is not empty, and nothing if it fails. `wire` is all that it has accepted so far.
pub record SendLaws {x : Crates} (api : TcpApi x) : Type 0 where
  pub wire : api.Stream → Bytes
  pub write_ok :
      (s s' : api.Stream) (bytes : Bytes) (n : ℕ)
      → api.write s bytes ≡ (ok n, s')
      → (n ≤ length bytes) × (0 < length bytes → 0 < n) × (wire s' ≡ wire s ++ take n bytes)
  pub write_err :
      (s s' : api.Stream) (bytes : Bytes) (e : IoError)
      → api.write s bytes ≡ (err e, s')
      → wire s' ≡ wire s

module _ {x : Crates} {api : TcpApi x} where
  -- The rest of the message that is being sent, then the waiting messages, as one run of bytes.
  abbrev pub pending : Inner api → Bytes
  pending s = concat (waiting s.current_write s.out_queue)

  -- The rounds that are enough to send everything: one for each byte and each message.
  abbrev pub work : Inner api → ℕ
  work s = length (pending s) + length (waiting s.current_write s.out_queue)

  -- What sending leaves alone.
  pub record Keeps (s s' : Inner api) : Type 0 where
    pub reader : s'.msg_reader ≡ s.msg_reader
    pub context : s'.enc_ctx ≡ s.enc_ctx
    pub conf : s'.out_queue.conf ≡ s.out_queue.conf
