-- ===== src/Udt/Sock/Setup.antt =====
-- What a `UdtSock` that src/udt/udt_sock.rs hands out has been set up with.
use socket_collection.Base.{
  ◌≡◌, refl, sym, ap, ◌∙◌, true, false, List, [], ◌∷◌, none, some, Result, ok, err,
}
use socket_collection.Env.{Crates}
use socket_collection.Error.{Res}
use socket_collection.Udt.Api.{
  UdtApi, UdtOption, udp_sndbuf, udp_rcvbuf, udt_rcvsyn, udt_sndsyn, udt_rendezvous,
}
use socket_collection.Udt.Sock.{UdtSock, wrapped, and_then, configure, wrap_std_sock}

module _ {x : Crates} (api : UdtApi x) where
  -- The options are set one after the other, each with success.
  pub data AreSet (stream : api.UdtSocket) : List UdtOption → api.Net → api.Net → Type 0 where
    all_set : {net : api.Net} → AreSet stream [] net net
    set_first :
        {net net' net'' : api.Net} {o : UdtOption} {options : List UdtOption}
        → api.setsockopt stream o net ≡ (ok tt, net')
        → AreSet stream options net' net''
        → AreSet stream (o ∷ options) net net''

ok-injective : {E A : Type 0} {a b : A} → ◌≡◌ {A = Result E A} (ok a) (ok b) → a ≡ b
ok-injective h = cc

-- Both buffers are half a mebibyte (2^19 bytes), nothing blocks, and the rendezvous mode is on.
abbrev pub options : List UdtOption
options =
    udp_sndbuf 524_288
    ∷ udp_rcvbuf 524_288
    ∷ udt_rcvsyn false
    ∷ udt_sndsyn false
    ∷ udt_rendezvous true
    ∷ []

-- A socket on the stream that has nothing buffered, expects a length next, and sends nothing.
abbrev pub idle_on : {x : Crates} {api : UdtApi x} → api.UdtSocket → UdtSock api
idle_on stream = record {
  inner = some (record {
    stream = stream;
    read_buffer = [];
    read_len = 0;
    write_queue = [];
    current_write = none;
  });
}

module _ {x : Crates} (api : UdtApi x) where
  and_then-ok :
      {A B : Type 0} (first : Result api.Failure A × api.Net)
      (rest : A → api.Net → Res x B × api.Net) {b : B} {net : api.Net}
      → and_then api first rest ≡ (ok b, net)
      → (a : A) × (mid : api.Net) × (first ≡ (ok a, mid)) × (rest a mid ≡ (ok b, net))
  and_then-ok (ok a, mid) rest h = (a, mid, refl, h)
  and_then-ok (err e, mid) rest h = absurd cc

  wrapped_lem :
      (stream : api.UdtSocket) (sock : UdtSock api) (net net' : api.Net)
      → ◌≡◌ {A = Res x (UdtSock api) × api.Net} (ok (wrapped stream), net) (ok sock, net')
      → (sock ≡ wrapped stream) × (net ≡ net')
  wrapped_lem stream sock net net' h = (sym (ok-injective (ap (λ p. p.0) h)), ap (λ p. p.1) h)

  configure-AreSet :
      (stream : api.UdtSocket) (options : List UdtOption) (udp_sock : api.StdSocket)
      (net net' : api.Net) (sock : UdtSock api)
      → configure stream options udp_sock net ≡ (ok sock, net')
      → (configured : api.Net) × (sock ≡ wrapped stream)
        × AreSet api stream options net configured
        × (api.bind_from stream udp_sock configured ≡ (ok tt, net'))
  unfolding configure
  configure-AreSet stream [] udp_sock net net' sock h =
      let (u, mid, e, done) = and_then-ok (api.bind_from stream udp_sock net) _ h in
      let (same, last) = wrapped_lem stream sock mid net' done in
      (net, same, all_set, e ∙ ap (λ n. (ok tt, n)) last)
  configure-AreSet stream (o ∷ options) udp_sock net net' sock h =
      let (u, mid, e, later) = and_then-ok (api.setsockopt stream o net) _ h in
      let (configured, same, set, bound) =
        configure-AreSet stream options udp_sock mid net' sock later in
      (configured, same, set_first e set, bound)

  -- A socket that `wrap_std_sock` hands out is over a new stream, with an empty read buffer, the
  -- length of a message to be read first, no message to send and none queued. On the stream the
  -- buffer sizes of 524,288 bytes each, the non-blocking modes and the rendezvous mode were set,
  -- in this order, before it was bound to the given socket, and every one of these calls succeeded.
  pub wrap_std_sock-AreSet :
      (udp_sock : api.StdSocket) (net net' : api.Net) (sock : UdtSock api)
      → wrap_std_sock udp_sock net ≡ (ok sock, net')
      → (stream : api.UdtSocket) × (created : api.Net) × (configured : api.Net) × (api.new net
          ≡ (ok stream, created))
        × (sock ≡ idle_on stream)
        × AreSet api stream options created configured
        × (api.bind_from stream udp_sock configured ≡ (ok tt, net'))
  unfolding wrap_std_sock
  wrap_std_sock-AreSet udp_sock net net' sock h =
      let (stream, created, e, later) = and_then-ok (api.new net) _ h in
      let (configured, same, set, bound) =
        configure-AreSet stream options udp_sock created net' sock later in
      (stream, created, configured, e, same, set, bound)
