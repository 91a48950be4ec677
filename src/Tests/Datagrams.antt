-- ===== src/Tests/Datagrams.antt =====
-- A concrete datagram socket, and that it keeps the documented contract of `mio` that src/udp.rs
-- relies on.
use socket_collection.Base.{
  ℕ, zero, suc, ◌<◌, ◌≤◌, ◌≡◌, List, [], ◌∷◌, ◌++◌, length, Result, ok, err, none, arith,
}
use socket_collection.Env.{Bytes}
use socket_collection.Error.{IoError}
use socket_collection.Mio.{UdpApi}
use socket_collection.Udp.Outbox.Flush.{SendLaws}
use socket_collection.Udp.Inbox.Receive.{RecvLaws}
use socket_collection.Udp.Inner.{recv_bytes, recv_pair, send_pair, pair_len}
use socket_collection.Tests.World.{crates}
use socket_collection.Tests.Streams.{blocked}

-- A socket with the datagrams that it still gives, the number of those that it still takes before
-- it would block, and those that it took, to the connected peer and to others.
pub record Port : Type 0 where
  pub incoming : List (Bytes × ℕ)
  pub room : ℕ
  pub taken : List Bytes
  pub taken_to : List (Bytes × ℕ)

abbrev pub port : List (Bytes × ℕ) → ℕ → List Bytes → List (Bytes × ℕ) → Port
port incoming room taken taken_to = record {
  incoming = incoming;
  room = room;
  taken = taken;
  taken_to = taken_to;
}

abbrev recv_port : List (Bytes × ℕ) → Port → Result IoError Bytes × Port
recv_port [] p = (err blocked, p)
recv_port ((bytes, peer) ∷ more) p = (ok bytes, record p { incoming = more })

abbrev recv_from_port : List (Bytes × ℕ) → Port → Result IoError (Bytes × ℕ) × Port
recv_from_port [] p = (err blocked, p)
recv_from_port (m ∷ more) p = (ok m, record p { incoming = more })

abbrev send_port : ℕ → Port → Bytes → Result IoError ℕ × Port
send_port zero p bytes = (err blocked, p)
send_port (suc room) p bytes =
    (ok (length bytes), record p { room = room; taken = p.taken ++ (bytes ∷ []) })

abbrev send_to_port : ℕ → Port → Bytes × ℕ → Result IoError ℕ × Port
send_to_port zero p m = (err blocked, p)
send_to_port (suc room) p m =
    (ok (length m.0), record p { room = room; taken_to = p.taken_to ++ (m ∷ []) })

abbrev pub ports : UdpApi crates
ports = record {
  Sock = Port;
  Registration = ℕ;
  Poll = ℕ;
  bind = λ addr. ok (port [] 0 [] []);
  connect = λ p addr. (ok tt, p);
  recv = λ p n. recv_port p.incoming p;
  recv_from = λ p n. recv_from_port p.incoming p;
  send = λ p bytes. send_port p.room p bytes;
  send_to = λ p bytes peer. send_to_port p.room p (bytes, peer);
  set_ttl = λ p t. (ok tt, p);
  ttl = λ p. ok 64;
  local_addr = λ p. ok 1;
  take_error = λ p. (ok none, p);
  register = λ p r. (ok tt, p);
  reregister = λ p r. (ok tt, p);
  deregister = λ p r. (ok tt, p);
}

pub send_port-whole :
    (room : ℕ) (s s' : Port) (m : Bytes) (n : ℕ)
    → ◌≡◌ {A = Result IoError ℕ × Port} (send_port room s m) (ok n, s')
    → (s'.taken ≡ s.taken ++ (m ∷ [])) × (length m ≤ n)
send_port-whole zero s s' m n h = cc
send_port-whole (suc room) s s' m n h = (ground arith, ground arith)

pub send_port-err :
    (room : ℕ) (s s' : Port) (m : Bytes) (e : IoError)
    → ◌≡◌ {A = Result IoError ℕ × Port} (send_port room s m) (err e, s')
    → s'.taken ≡ s.taken
send_port-err zero s s' m e h = ground arith
send_port-err (suc room) s s' m e h = cc

abbrev pub send-SendLaws : SendLaws ports.send length
send-SendLaws = record {
  sent = λ p. p.taken;
  patience = λ p. 0;
  send_whole = λ s s' m n h le. ((send_port-whole s.room s s' m n h).0, omega arith);
  send_part = λ s s' m n h lt. absurd (omega (arith, (send_port-whole s.room s s' m n h).1));
  send_err = λ s s' m e h. send_port-err s.room s s' m e h;
}

pub send_to_port-whole :
    (room : ℕ) (s s' : Port) (m : Bytes × ℕ) (n : ℕ)
    → ◌≡◌ {A = Result IoError ℕ × Port} (send_to_port room s m) (ok n, s')
    → (s'.taken_to ≡ s.taken_to ++ (m ∷ [])) × (length m.0 ≤ n)
send_to_port-whole zero s s' m n h = cc
send_to_port-whole (suc room) s s' m n h = (ground arith, ground arith)

pub send_to_port-err :
    (room : ℕ) (s s' : Port) (m : Bytes × ℕ) (e : IoError)
    → ◌≡◌ {A = Result IoError ℕ × Port} (send_to_port room s m) (err e, s')
    → s'.taken_to ≡ s.taken_to
send_to_port-err zero s s' m e h = ground arith
send_to_port-err (suc room) s s' m e h = cc

abbrev pub send_pair-SendLaws : SendLaws (send_pair ports) pair_len
send_pair-SendLaws = record {
  sent = λ p. p.taken_to;
  patience = λ p. 0;
  send_whole = λ s s' m n h le. ((send_to_port-whole s.room s s' m n h).0, omega arith);
  send_part = λ s s' m n h lt. absurd (omega (arith, (send_to_port-whole s.room s s' m n h).1));
  send_err = λ s s' m e h. send_to_port-err s.room s s' m e h;
}

pub recv_port-less :
    (l : List (Bytes × ℕ)) (s s' : Port) (m : Bytes)
    → ◌≡◌ {A = Result IoError Bytes × Port} (recv_port l s) (ok m, s')
    → length s'.incoming < length l
recv_port-less [] s s' m h = cc
recv_port-less (d ∷ l) s s' m h = ground arith

pub recv_from_port-less :
    (l : List (Bytes × ℕ)) (s s' : Port) (m : Bytes × ℕ)
    → ◌≡◌ {A = Result IoError (Bytes × ℕ) × Port} (recv_from_port l s) (ok m, s')
    → length s'.incoming < length l
recv_from_port-less [] s s' m h = cc
recv_from_port-less (d ∷ l) s s' m h = ground arith

abbrev pub recv-RecvLaws : RecvLaws (recv_bytes ports)
recv-RecvLaws = record {
  readable = λ p. length p.incoming;
  recv_ok = λ s s' m h. recv_port-less s.incoming s s' m h;
}

abbrev pub recv_pair-RecvLaws : RecvLaws (recv_pair ports)
recv_pair-RecvLaws = record {
  readable = λ p. length p.incoming;
  recv_ok = λ s s' m h. recv_from_port-less s.incoming s s' m h;
}
