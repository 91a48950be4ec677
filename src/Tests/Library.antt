-- ===== src/Tests/Library.antt =====
-- A concrete UDT library, byte order and codec, and that they keep the contracts that src/udt
-- relies on.
use socket_collection.Base.{
  ℕ, suc, ◌+◌, ◌<◌, ◌≤◌, ◌≡◌, refl, sym, ap, ◌∙◌, List, [], ◌∷◌, ◌++◌, take, length, Result, ok,
  err, map_err, ◌==◌, arith, take-append,
}
use native.Mathlib.Decide.{ℕ_discrete}
use socket_collection.Base.Dict.{
  get, remove, insert, get-insert_self, get-insert_other, get-remove_self, get-remove_other,
}
use socket_collection.Base.Int.{ℤ, pos, negsuc}
use socket_collection.Env.{Bytes}
use socket_collection.Error.{IoError, udt}
use socket_collection.Udt.Api.{UdtApi, Limits, ByteOrder, ByteOrderLaws, StreamCodec, Streams}
use socket_collection.Udt.Inner.Flush.{SendLaws}
use socket_collection.Udt.Inner.Receive.{ReadLaws}
use socket_collection.Udt.EventLoop.{EpollApi}
use socket_collection.Udt.EventLoop.Process.{WatchLaws}
use socket_collection.Udt.Frame.{frame}
use socket_collection.Tests.World.{crates, le4, from4, from4_lem}
use socket_collection.Tests.Streams.{Pipe, pipe, blocked, write_pipe, write_pipe-ok, write_pipe-err}

-- Errors are numbers: 0 where a receive would block, 1 where a send would.
abbrev pub recv_pipe : List Bytes → ℕ → Bytes → Result ℕ ℤ × Bytes × Pipe
recv_pipe [] room taken = (err 0, [], pipe [] room taken)
recv_pipe (piece ∷ pieces) room taken = (ok (pos (length piece)), piece, pipe pieces room taken)

abbrev pub sent : Result IoError ℕ × Pipe → Result ℕ ℤ × Pipe
sent (ok n, p) = (ok (pos n), p)
sent (err e, p) = (err 1, p)

-- Every socket is one end of the same pipe.
abbrev pub library : UdtApi crates
library = record {
  UdtSocket = ℕ;
  Net = Pipe;
  Failure = ℕ;
  StdSocket = ℕ;
  is_easyncrcv = λ e. e == 0;
  is_easyncsnd = λ e. e == 1;
  into_socket_error = λ e. udt (record { err_msg = "failed" });
  debug = λ e. "error";
  new = λ net. (ok 7, net);
  setsockopt = λ s o net. (ok tt, net);
  bind_from = λ s udp net. (ok tt, net);
  connect = λ s addr net. (ok tt, net);
  getpeername = λ s net. ok 2;
  recv = λ s n net. recv_pipe net.incoming net.room net.taken;
  send = λ s bytes net. sent (write_pipe net net.room bytes);
  close = λ s net. (ok tt, net);
}

pub sent-ok :
    (r : Result IoError ℕ × Pipe) (n : ℕ) (p : Pipe) → sent r ≡ (ok (pos n), p) → r ≡ (ok n, p)
sent-ok (ok m, q) n p h = cc
sent-ok (err e, q) n p h = absurd cc

pub sent-err :
    (r : Result IoError ℕ × Pipe) (n : ℕ) (p : Pipe)
    → sent r ≡ (err n, p)
    → (e : IoError) × (r ≡ (err e, p))
sent-err (ok m, q) n p h = absurd cc
sent-err (err e, q) n p h = (e, cc)

pub sent-negative :
    (r : Result IoError ℕ × Pipe) (n : ℕ) (p : Pipe) → sent r ≡ (ok (negsuc n), p) → ⊥
sent-negative (ok m, q) n p h = cc
sent-negative (err e, q) n p h = cc

abbrev pub library-SendLaws : SendLaws library
library-SendLaws = record {
  wire = λ s net. net.taken;
  send_ok = λ s net net' bytes n h.
      write_pipe-ok net net' net.room bytes n (sent-ok (write_pipe net net.room bytes) n net' h);
  send_negative =
      λ s net net' bytes n h. absurd (sent-negative (write_pipe net net.room bytes) n net' h);
  send_err = λ s net net' bytes e h.
      let (io_error, h') = sent-err (write_pipe net net.room bytes) e net' h in
      write_pipe-err net net' net.room bytes io_error h';
}

pub recv_pipe-ok :
    (incoming : List Bytes) (room : ℕ) (taken : Bytes) (net' : Pipe) (n : ℕ) (buffer : Bytes)
    → recv_pipe incoming room taken ≡ (ok (pos (suc n)), buffer, net')
    → (suc n ≤ length buffer) × (length net'.incoming < length incoming)
recv_pipe-ok [] room taken net' n buffer h = absurd cc
recv_pipe-ok (piece ∷ pieces) room taken net' n buffer h = (ground arith, ground arith)

abbrev pub library-ReadLaws : ReadLaws library
library-ReadLaws = record {
  readable = λ s net. length net.incoming;
  recv_ok = λ s net net' n buffer h. recv_pipe-ok net.incoming net.room net.taken net' n buffer h;
}

abbrev pub byte_order : ByteOrder
byte_order = record { put_u32 = le4; get_u32 = λ b. map_err (λ e. blocked) (from4 b) }

pub byte_order-ByteOrderLaws : ByteOrderLaws byte_order
byte_order-ByteOrderLaws = record {
  length_put = λ n. refl;
  get_put = λ n rest h. ap (map_err (λ e. blocked)) (from4_lem n rest);
}

-- A message is its length, then its bytes; more bytes can follow.
abbrev pub read_stream : Bytes → Result ℕ Bytes
read_stream [] = err 7
read_stream (n ∷ rest) = ok (take n rest)

abbrev pub stream_codec : StreamCodec crates Bytes
stream_codec = record { serialise_into = λ v. ok (length v ∷ v); deserialise_from = read_stream }

read_stream_lem :
    (v bytes rest : Bytes)
    → ◌≡◌ {A = Result ℕ Bytes} (ok (length v ∷ v)) (ok bytes)
    → read_stream (bytes ++ rest) ≡ ok v
read_stream_lem v [] rest h = absurd (ground arith)
read_stream_lem v (n ∷ bytes) rest h =
    let e : v ≡ bytes = ground arith in
    let l : length v ≡ n = ground arith in
    ap ok (take-append n bytes rest (ap length (sym e) ∙ l) ∙ sym e)

pub stream_codec-Streams : Streams stream_codec
stream_codec-Streams v bytes rest h = read_stream_lem v bytes rest h

abbrev pub limits : Limits
limits = record { max_payload_size = 10; msg_drop_priority = 2; max_msg_age_secs = 60 }

-- The frame of the message 1, 2, 3.
abbrev pub udt_frame_3 : Bytes
udt_frame_3 = 4 ∷ 0 ∷ 0 ∷ 0 ∷ 3 ∷ 1 ∷ 2 ∷ 3 ∷ []

pub udt_frame_3-sent : frame byte_order stream_codec (1 ∷ 2 ∷ 3 ∷ []) ≡ ok udt_frame_3
unfolding frame
udt_frame_3-sent = refl

-- An epoll that always succeeds: the sockets that it watches, each with its events.
abbrev pub epoll : EpollApi library
epoll = record {
  Epoll = List (ℕ × ℕ);
  EpollEvents = ℕ;
  same_socket = ℕ_discrete;
  same_events = ℕ_discrete;
  empty = 0;
  with_events = λ e f. e + f;
  udt_epoll_in = 1;
  udt_epoll_out = 4;
  udt_epoll_err = 8;
  add_usock = λ e s events. (ok tt, insert ℕ_discrete s events e);
  remove_usock = λ e s. (ok tt, remove ℕ_discrete s e);
}

pub epoll-WatchLaws : WatchLaws epoll
epoll-WatchLaws = record {
  watched = λ e s. get ℕ_discrete s e;
  added = λ e s events n. get-insert_self ℕ_discrete s events e;
  added_other = λ e other s events n. get-insert_other ℕ_discrete other s events e n;
  removed = λ e s. get-remove_self ℕ_discrete s e;
  removed_other = λ e other s n. get-remove_other ℕ_discrete other s e n;
}
