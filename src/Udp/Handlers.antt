-- ===== src/Udp/Handlers.antt =====
-- `IsEmpty`, `RecvResult`, `handle_recv_res` and `handle_send_res` of src/udp.rs.
use socket_collection.Base.{
  ℕ, Bool, true, false, List, [], ◌∷◌, ◌++◌, Option, none, some, Result, ok, err, ltb,
  if◌then◌else◌, is_empty as list_is_empty,
}
use socket_collection.Env.{Crates, Bytes}
use socket_collection.Error.{IoError, Res, io, is_retry}

-- The trait `IsEmpty`.
pub record IsEmpty {ℓ} (M : Type ℓ) : Type ℓ where
  pub is_empty : M → Bool

-- `impl IsEmpty for Vec<u8>`.
abbrev pub bytes_is_empty : IsEmpty Bytes
bytes_is_empty = record { is_empty = list_is_empty }

-- `impl IsEmpty for (Vec<u8>, SocketAddr)`.
abbrev pub pair_is_empty : {A : Type 0} → IsEmpty (Bytes × A)
pair_is_empty = record { is_empty = λ m. list_is_empty m.0 }

pub data RecvResult {ℓ} (M : Type ℓ) : Type ℓ where
  would_block : Option M → RecvResult M
  continue_recv : RecvResult M

-- `pop_front` of a `VecDeque`: what it returns, and what it leaves.
abbrev pub front {ℓ} : {M : Type ℓ} → List M → Option M
front [] = none
front (m ∷ ms) = some m

abbrev pub rest {ℓ} : {M : Type ℓ} → List M → List M
rest [] = []
rest (m ∷ ms) = ms

module _ {x : Crates} {M : Type 0} where
  -- The answer, and the read buffer afterwards.
  unfoldable pub handle_recv_res :
      IsEmpty M → Result IoError M → List M → Res x (RecvResult M) × List M
  handle_recv_res e (ok msg) read_buffer =
      (ok continue_recv, if e.is_empty msg then read_buffer else read_buffer ++ (msg ∷ []))
  handle_recv_res e (err error) read_buffer =
      if is_retry error.kind
      then (ok (would_block (front read_buffer)), rest read_buffer)
      else (err (io error), read_buffer)

  -- The answer, and `current_write` afterwards.
  unfoldable pub handle_send_res : Result IoError ℕ → Option M → ℕ → M → Res x Bool × Option M
  handle_send_res (ok bytes_txd) current_write msg_len msg =
      (ok true, if ltb bytes_txd msg_len then some msg else current_write)
  handle_send_res (err error) current_write msg_len msg =
      if is_retry error.kind then (ok false, some msg) else (err (io error), current_write)
