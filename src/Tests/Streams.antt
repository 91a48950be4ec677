-- ===== src/Tests/Streams.antt =====
-- A concrete stream, and that it keeps the documented contract of `mio` that src/tcp.rs relies on.
use socket_collection.Base.{
  ℕ, zero, suc, ◌-◌, ◌<◌, ◌≤◌, ◌≡◌, refl, Bool, true, false, List, [], ◌∷◌, ◌++◌, take, length, ltb,
  ltb→lt, if◌then◌else◌, Result, ok, err, none, arith, Bool-cases, inl, inr,
}
use socket_collection.Env.{Bytes}
use socket_collection.Error.{IoError, would_block, is_retry}
use socket_collection.Mio.{TcpApi}
use socket_collection.Tcp.Inner.Pending.{SendLaws}
use socket_collection.Tcp.Inner.Live.{LiveLaws}
use socket_collection.Tcp.Inner.Receive.{ReadLaws}
use socket_collection.Tests.World.{crates}

abbrev pub blocked : IoError
blocked = record { kind = would_block; text = "would block" }

-- A stream with the pieces that it still gives, the bytes that it still takes before it would
-- block, and those that it took.
pub record Pipe : Type 0 where
  pub incoming : List Bytes
  pub room : ℕ
  pub taken : Bytes

abbrev pub pipe : List Bytes → ℕ → Bytes → Pipe
pipe incoming room taken = record { incoming = incoming; room = room; taken = taken }

abbrev pub read_pipe : List Bytes → ℕ → Bytes → Result IoError Bytes × Pipe
read_pipe [] room taken = (err blocked, pipe [] room taken)
read_pipe (piece ∷ pieces) room taken = (ok piece, pipe pieces room taken)

abbrev pub write_pipe : Pipe → ℕ → Bytes → Result IoError ℕ × Pipe
write_pipe p zero bytes = (err blocked, p)
write_pipe p (suc room) bytes =
    if ltb (suc room) (length bytes)
    then (ok (suc room), record p { room = 0; taken = p.taken ++ take (suc room) bytes })
    else (
      ok (length bytes),
      record p { room = suc room - length bytes; taken = p.taken ++ take (length bytes) bytes },
    )

abbrev pub streams : TcpApi crates
streams = record {
  Stream = Pipe;
  Registration = ℕ;
  Poll = ℕ;
  connect = λ addr. ok (pipe [] 0 []);
  read = λ p n. read_pipe p.incoming p.room p.taken;
  write = λ p bytes. write_pipe p p.room bytes;
  set_linger = λ p t. (ok tt, p);
  set_ttl = λ p t. (ok tt, p);
  ttl = λ p. ok 64;
  local_addr = λ p. ok 1;
  peer_addr = λ p. ok 2;
  take_error = λ p. (ok none, p);
  register = λ p r. (ok tt, p);
  reregister = λ p r. (ok tt, p);
  deregister = λ p r. (ok tt, p);
  shutdown = λ p. (ok tt, p);
}

pub write_pipe-ok :
    (p p' : Pipe) (room : ℕ) (bytes : Bytes) (n : ℕ)
    → ◌≡◌ {A = Result IoError ℕ × Pipe} (write_pipe p room bytes) (ok n, p')
    → (n ≤ length bytes) × (0 < length bytes → 0 < n) × (p'.taken ≡ p.taken ++ take n bytes)
write_pipe-ok p p' zero bytes n h = cc
write_pipe-ok p p' (suc room) bytes n h = elim (Bool-cases (ltb (suc room) (length bytes))) [
  | inl part ↦
      let e : n ≡ suc room = ground arith in
      (omega (arith, ltb→lt (suc room) (length bytes) part), λ _. omega arith, rw e (ground arith))
  | inr whole ↦
      let e : n ≡ length bytes = ground arith in
      (omega arith, λ more. omega arith, rw e (ground arith))
]

pub write_pipe-err :
    (p p' : Pipe) (room : ℕ) (bytes : Bytes) (e : IoError)
    → ◌≡◌ {A = Result IoError ℕ × Pipe} (write_pipe p room bytes) (err e, p')
    → p'.taken ≡ p.taken
write_pipe-err p p' zero bytes e h = ground arith
write_pipe-err p p' (suc room) bytes e h = absurd (ground arith)

abbrev pub streams-SendLaws : SendLaws streams
streams-SendLaws = record {
  wire = λ p. p.taken;
  write_ok = λ s s' bytes n h. write_pipe-ok s s' s.room bytes n h;
  write_err = λ s s' bytes e h. write_pipe-err s s' s.room bytes e h;
}

pub read_pipe-less :
    (p' : Pipe) (incoming : List Bytes) (room : ℕ) (taken bytes : Bytes)
    → ◌≡◌ {A = Result IoError Bytes × Pipe} (read_pipe incoming room taken) (ok bytes, p')
    → length p'.incoming < length incoming
read_pipe-less p' [] room taken bytes h = cc
read_pipe-less p' (piece ∷ pieces) room taken bytes h = ground arith

abbrev pub streams-ReadLaws : ReadLaws streams
streams-ReadLaws = record {
  readable = λ p. length p.incoming;
  read_ok = λ s s' b rest h. read_pipe-less s' s.incoming s.room s.taken (b ∷ rest) h;
}

either :
    (b : Bool) (m n : ℕ) (p q : Pipe)
    → (k : ℕ) × (r : Pipe) × ◌≡◌ {A = Result IoError ℕ × Pipe}
        (if b then (ok m, p) else (ok n, q))
        (ok k, r)
either true m n p q = (m, p, refl)
either false m n p q = (n, q, refl)

pub write_pipe-takes :
    (p : Pipe) (room : ℕ) (bytes : Bytes)
    → (n : ℕ) × (p' : Pipe) × ◌≡◌ {A = Result IoError ℕ × Pipe}
        (write_pipe p (suc room) bytes)
        (ok n, p')
write_pipe-takes p room bytes = either (ltb (suc room) (length bytes)) _ _ _ _

pub write_pipe-retries :
    (p p' : Pipe) (room : ℕ) (bytes : Bytes) (e : IoError)
    → ◌≡◌ {A = Result IoError ℕ × Pipe} (write_pipe p room bytes) (err e, p')
    → is_retry e.kind ≡ true
write_pipe-retries p p' zero bytes e h = ground arith
write_pipe-retries p p' (suc room) bytes e h = absurd (ground arith)

-- Each time that it becomes writable the pipe has room for three bytes.
abbrev pub streams-LiveLaws : LiveLaws streams-SendLaws
streams-LiveLaws = record {
  writable = λ p. record p { room = 3 };
  untouched = λ p. refl;
  takes = λ p bytes. write_pipe-takes (record p { room = 3 }) 2 bytes;
  retries = λ s s' bytes e h. write_pipe-retries s s' s.room bytes e h;
}
