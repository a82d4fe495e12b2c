-- ===== src/Server/Connection/Handlers/Sent.antt =====
-- What `write_packet` and `write_each` put on the stream.
use statik_rs.Prelude.{◌≡◌, refl, sym, ap, ◌∙◌, ◌++◌, Bool, true, false, append_assoc, append-nil}
use statik_rs.Prelude.{Option, some, List, [], ◌∷◌}
use statik_rs.Prelude.Int.{ℤ}
use statik_rs.Core.Crates.{Crates}
use statik_rs.Core.Result.{Result, ok, ◌>>=◌, >>=-eq-ok, ok_inj, Bytes}
use statik_rs.Derive.{Packet, Body}
use statik_rs.Server.Connection.{Connection, Zlib}
use statik_rs.Server.Connection.Burst.{Outgoing}
use statik_rs.Server.Connection.Frame.{frame, write_packet}
use statik_rs.Server.Connection.Handlers.{write_each}

-- The compression after `S2CSetCompression`, if it is enabled.
abbrev pub threshold_after : Bool → ℤ → Option ℤ → Option ℤ
threshold_after false threshold before = before
threshold_after true threshold before = some threshold

-- What is on the stream after some packets.
module _ ⦃c : Crates⦄ ⦃z : Zlib⦄ where
  unfoldable pub frames : Option ℤ → List Outgoing → Result Bytes
  frames threshold [] = ok []
  frames threshold ((p, body) ∷ packets) = do
    first ← frame threshold p body
    others ← frames threshold packets
    ok (first ++ others)

  abbrev pub extend : Connection → Bytes → Connection
  extend conn bytes = record conn { stream = conn.stream ++ bytes }

  pub write_packet_lem :
      (p : Packet) (body : Body p) (conn : Connection) (bytes : Bytes)
      → frame conn.compression_threshold p body ≡ ok bytes
      → write_packet p body conn ≡ (ok tt, extend conn bytes)
  unfolding write_packet
  write_packet_lem p body conn bytes e = rw e refl

  pub write_each_lem :
      (packets : List Outgoing) (conn : Connection) (bytes : Bytes)
      → frames conn.compression_threshold packets ≡ ok bytes
      → write_each packets conn ≡ (ok tt, extend conn bytes)
  unfolding write_each frames
  write_each_lem [] conn bytes e = rw (← ok_inj e, append-nil conn.stream) refl
  write_each_lem ((p, body) ∷ packets) conn bytes e =
      let (first, written, more) = >>=-eq-ok (frame conn.compression_threshold p body) _ bytes e in
      let (others, read, joined) =
        >>=-eq-ok (frames conn.compression_threshold packets) _ bytes more in
      rw (write_packet_lem p body conn first written) (
        write_each_lem packets (extend conn first) others read
        ∙ rw (← ok_inj joined, append_assoc conn.stream first others) refl)

  -- The frames of a packet and of those behind it.
  pub frames-cons :
      (threshold : Option ℤ) (p : Packet) (body : Body p) (packets : List Outgoing) (bytes : Bytes)
      → frames threshold ((p, body) ∷ packets) ≡ ok bytes
      → (first : Bytes) × (frame threshold p body ≡ ok first)
        × (others : Bytes) × (frames threshold packets ≡ ok others)
        × (first ++ others ≡ bytes)
  unfolding frames
  frames-cons threshold p body packets bytes e =
      let (first, written, more) = >>=-eq-ok (frame threshold p body) _ bytes e in
      let (others, read, joined) = >>=-eq-ok (frames threshold packets) _ bytes more in
      (first, written, others, read, ok_inj joined)

  -- The frame of a last packet.
  pub frames_last :
      (threshold : Option ℤ) (p : Packet) (body : Body p) (bytes : Bytes)
      → frames threshold ((p, body) ∷ []) ≡ ok bytes
      → frame threshold p body ≡ ok bytes
  unfolding frames
  frames_last threshold p body bytes e =
      let (first, written, others, none_left, joined) = frames-cons threshold p body [] bytes e in
      written
      ∙ ap ok (sym (append-nil first) ∙ ap (λ (l : Bytes). first ++ l) (ok_inj none_left) ∙ joined)
