-- ===== src/Server/Connection/Loop/Skips.antt =====
-- `handle_connection` on a frame in Play or Configuration that is not understood.
use statik_rs.Prelude.{◌≤◌, ◌≡◌, ap, ◌++◌, ◌⊎◌, none, [], length}
use statik_rs.Prelude.Int.{ℤ}
use statik_rs.Core.Crates.{Crates}
use statik_rs.Core.Result.{Error, ok, err, Bytes}
use statik_rs.Core.State.{State}
use statik_rs.Core.VarInt.{encode_varint, from_usize}
use statik_rs.Server.Connection.{Connection, Zlib, Assets}
use statik_rs.Server.Connection.Frame.{max_packet_size, try_parse_packet}
use statik_rs.Server.Connection.Frame.Opening.{Opens}
use statik_rs.Server.Connection.Frame.Delivery.{try_parse_packet_skips}
use statik_rs.Server.Connection.Loop.{Outcome, parsed, drain, after_drain, handle_connection}
use statik_rs.Server.Protocol.{decode_c2s}

-- A frame with this body, and bytes behind it.
abbrev pub framed_before : Bytes → Bytes → Bytes
framed_before body rest = (encode_varint (from_usize (length body)) ++ body) ++ rest

module _ ⦃c : Crates⦄ ⦃z : Zlib⦄ ⦃a : Assets⦄ where
  -- In the states Play and Configuration a complete frame stands at the front of the read buffer, its
  -- body at most 2097152 bytes long. The body is well formed: without compression it is the payload;
  -- with compression it is a Data Length of 0 and the payload, or the length of a payload of 1 to
  -- 2097152 bytes that reaches the threshold and zlib data for it. But the payload, which may
  -- otherwise be any bytes, does not decode. Then `try_parse_packet` returns `Ok(None)` and takes
  -- exactly this frame off the buffer, and `handle_connection` goes on to wait for the next event,
  -- whatever stands in the buffer behind the frame: that is left there, complete frames included.
  pub handle_connection_skips :
      (conn : Connection) (body payload rest : Bytes) (e : Error) (id : ℤ)
      → length body ≤ max_packet_size
      → Opens conn.compression_threshold body payload
      → (conn.state ≡ State.play) ⊎ (conn.state ≡ State.configuration)
      → decode_c2s conn.protocol conn.state payload ≡ err e
      → (try_parse_packet (record conn { buffer = framed_before body rest })
          ≡ (ok none, record conn { buffer = rest }))
        × (handle_connection [] id (record conn { buffer = framed_before body rest })
            ≡ Outcome.waiting id (record conn { buffer = rest }))
  unfolding handle_connection drain
  handle_connection_skips conn body payload rest e id fits opens lenient unknown =
      let start = record conn { buffer = framed_before body rest } in
      let skipped = try_parse_packet_skips conn body payload rest e fits opens lenient unknown in
      (
        skipped,
        ap (λ r. after_drain Outcome.waiting (parsed (drain (length start.buffer)) r) id) skipped,
      )
