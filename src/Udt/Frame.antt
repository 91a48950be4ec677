-- ===== src/Udt/Frame.antt =====
-- The frame that `write` of src/udt/udt_sock.rs puts together in a cursor: the length of the
-- serialised message in 4 bytes, then the message.
use socket_collection.Base.{
  ℕ, ◌+◌, ◌-◌, ◌%◌, ◌≡◌, refl, map_err, ok, [], ◌++◌, length, take, drop, arith, drop-append,
  append-nil, take_of_length-le, drop_of_length-le, Result-cases, inl, inr,
}
use socket_collection.Base.Try.{◌>>=◌}
use socket_collection.Env.{Crates, Bytes}
use socket_collection.Error.{Res, serialisation}
use socket_collection.Tcp.Frame.{u32_mod}
use socket_collection.Udt.Api.{ByteOrder, ByteOrderLaws, StreamCodec}

-- `Cursor<Vec<u8>>`.
pub record Cursor : Type 0 where
  pub inner : Bytes
  pub position : ℕ

-- Writing at the position overwrites what is there, and appends what goes past the end.
pub put : Bytes → Cursor → Cursor
put bytes cursor = record {
  inner =
      take cursor.position cursor.inner
      ++ (bytes ++ drop (cursor.position + length bytes) cursor.inner);
  position = cursor.position + length bytes;
}

-- `mem::size_of::<u32>()`.
abbrev pub u32_size : ℕ
u32_size = 4

-- The length is put in front once it is known; it is cast to `u32`.
set_len : ByteOrder → Cursor → Bytes
unfolding put
set_len order cursor =
    let len = cursor.position - u32_size in
    (put (order.put_u32 (len % u32_mod)) (record cursor { position = 0 })).inner

-- The frame of a message.
unfoldable pub frame : {x : Crates} {T : Type 0} → ByteOrder → StreamCodec x T → T → Res x Bytes
unfolding put set_len
frame order c msg = do
  let empty : Cursor = record { inner = []; position = 0 }
  payload ← map_err serialisation (c.serialise_into msg)
  ok (set_len order (put payload (put (order.put_u32 0) empty)))

-- Writing at the end appends.
put_at_end :
    (bytes : Bytes) (cursor : Cursor)
    → cursor.position ≡ length cursor.inner
    → put bytes cursor
      ≡ record { inner = cursor.inner ++ bytes; position = length cursor.inner + length bytes }
unfolding put
put_at_end bytes cursor h = rw (
  h,
  take_of_length-le (length cursor.inner) cursor.inner (omega arith),
  drop_of_length-le (length cursor.inner + length bytes) cursor.inner (omega arith),
  append-nil,
)

module _ {order : ByteOrder} (laws : ByteOrderLaws order) where
  -- The length overwrites the first 4 bytes.
  set_len_lem :
      (head payload : Bytes)
      → length head ≡ 4
      → set_len order (record { inner = head ++ payload; position = length head + length payload })
        ≡ order.put_u32 (length payload % u32_mod) ++ payload
  unfolding set_len put
  set_len_lem head payload h =
      let n : length head + length payload - u32_size ≡ length payload = omega arith in
      let four : length (order.put_u32 (length payload % u32_mod)) ≡ 4 = laws.length_put _ in
      let skip : 0 + length (order.put_u32 (length payload % u32_mod)) ≡ 4 = omega arith in
      rw (n, skip, drop-append 4 head payload h)

  -- Over the 4 bytes that were put aside the length takes their place.
  set_len-put :
      (payload : Bytes)
      → set_len order (put payload (put (order.put_u32 0) (record { inner = []; position = 0 })))
        ≡ order.put_u32 (length payload % u32_mod) ++ payload
  set_len-put payload =
      rw
        (
          put_at_end (order.put_u32 0) (record { inner = []; position = 0 }) refl,
          put_at_end payload
              (record { inner = order.put_u32 0; position = 0 + length (order.put_u32 0) })
              (omega arith),
        )
        (set_len_lem (order.put_u32 0) payload (laws.length_put 0))

  -- A frame that was written is the length of the serialised message, then the message.
  pub frame-parts :
      {x : Crates} {T : Type 0} (c : StreamCodec x T) (v : T) {bytes : Bytes}
      → frame order c v ≡ ok bytes
      → (payload : Bytes) × (c.serialise_into v ≡ ok payload)
        × (bytes ≡ order.put_u32 (length payload % u32_mod) ++ payload)
  unfolding frame
  frame-parts c v h = elim (Result-cases (c.serialise_into v)) [
    | inl (payload, p) ↦ (payload, p, ground (arith, set_len-put payload))
    | inr (e, p) ↦ absurd (ground arith)
  ]
