-- ===== src/Udp/Inbox.antt =====
-- The receiving loop that `read` and `read_frm` of src/udp.rs share: `recv` or `recv_from` is
-- called until it would block. The state is the socket and the read buffer.
pub mod Receive
pub mod Safety
use socket_collection.Base.{List, Option, none, some, Result, ok, err, Run, done, Bool}
use socket_collection.Base.Loop.{Flow, again, return}
use socket_collection.Env.{Crates}
use socket_collection.Error.{IoError, Res}
use socket_collection.Udp.Handlers.{
  IsEmpty, RecvResult, would_block, continue_recv, handle_recv_res,
}

-- The socket and one of the read buffers.
abbrev pub Inbox : Type 0 → Type 0 → Type 0
Inbox Sock M = Sock × List M

module _ {x : Crates} {M R : Type 0} (decode : M → Res x R) where
  -- `Ok(Some(self.dec_ctx.decrypt(&buf)?))`.
  abbrev decoded : Res x R → Res x (Option R)
  decoded (ok v) = ok (some v)
  decoded (err error) = err error

  unfoldable pub deliver : Option M → Res x (Option R)
  deliver none = ok none
  deliver (some msg) = decoded (decode msg)

module _ {x : Crates} {Sock M R : Type 0} (e : IsEmpty M) (decode : M → Res x R) where
  -- The loop's body on what `handle_recv_res` made of the result.
  after_recv :
      Sock → Res x (RecvResult M) × List M → Flow (Res x (Option R) × Inbox Sock M) (Inbox Sock M)
  unfolding deliver
  after_recv sock (ok (would_block msg), buffer) = return (deliver decode msg, (sock, buffer))
  after_recv sock (ok continue_recv, buffer) = again (sock, buffer)
  after_recv sock (err error, buffer) = return (err error, (sock, buffer))

  pub recv_round :
      (Sock → Result IoError M × Sock)
      → Inbox Sock M
      → Run (Flow (Res x (Option R) × Inbox Sock M) (Inbox Sock M))
  unfolding after_recv
  recv_round recv (sock, buffer) =
      let (result, sock') = recv sock in done (after_recv sock' (handle_recv_res e result buffer))
