-- ===== src/Server/Connection/Handlers/Join.antt =====
-- The way of a 1.21.1 client into the world: `handle_login`, then `handle_configuration`.
use statik_rs.Prelude.{ℕ, ◌≡◌, refl, ap, ◌∙◌, ◌++◌, Bool, true, false, []}
use statik_rs.Prelude.{append_assoc, append-nil, Option}
use statik_rs.Prelude.Int.{ℤ}
use statik_rs.Core.Crates.{Crates}
use statik_rs.Core.Result.{Result, ok, ◌>>=◌, >>=-eq-ok, ok_inj, Bytes}
use statik_rs.Core.State.{State}
use statik_rs.Derive.{◌&◌}
use statik_rs.Proto.V1_21_1.C2s as C2s21
use statik_rs.Proto.V1_21_1.S2c as S2c21
use statik_rs.Server.Config.{ServerConfig}
use statik_rs.Server.Connection.{Connection, Zlib, Assets}
use statik_rs.Server.Connection.Burst.{configuration_burst, play_burst_v1_21_1}
use statik_rs.Server.Connection.Frame.{frame}
use statik_rs.Server.Connection.Handlers.{
  handle_login, handle_configuration, dispatch_packet, accept_21, compress_21,
}
use statik_rs.Server.Connection.Handlers.Sent.{
  frames, extend, write_packet_lem, write_each_lem, threshold_after,
}
use statik_rs.Server.Connection.Username.{is_valid_username}
use statik_rs.Server.Protocol.{DecodedC2s}
use statik_rs.Server.Connection.Handlers.Exchange.{dispatch_packet-eq}

-- The packets that the client sends.
abbrev pub hello_of : Bytes → ℕ → DecodedC2s
hello_of name id = DecodedC2s.v1_21_1 (C2s21.C2sPacket.hello, (name & id & tt))

abbrev pub login_acknowledged : DecodedC2s
login_acknowledged = DecodedC2s.v1_21_1 (C2s21.C2sPacket.login_acknowledged, tt)

abbrev pub finish_configuration_ack : DecodedC2s
finish_configuration_ack = DecodedC2s.v1_21_1 (C2s21.C2sPacket.finish_configuration_ack, tt)

module _ ⦃c : Crates⦄ ⦃z : Zlib⦄ where
  abbrev pub compression_frame_21 : Bool → ℤ → Option ℤ → Result Bytes
  compression_frame_21 false threshold before = ok []
  compression_frame_21 true threshold before =
      frame before S2c21.Login.s2c_set_compression (threshold, tt)

module _ ⦃c : Crates⦄ ⦃z : Zlib⦄ ⦃a : Assets⦄ where
  -- `S2CSetCompression` of 1.21.1, if it is configured, and `S2CLoginSuccess`.
  unfoldable pub hello_bytes : ServerConfig → Bytes → Option ℤ → Result Bytes
  hello_bytes config name before =
      let enabled = config.compression.enabled in
      let threshold = config.compression.threshold in
      do
        first ← compression_frame_21 enabled threshold before
        second ←
            frame (threshold_after enabled threshold before) S2c21.Login.s2c_login_success
              (0 & name & [] & false & tt)
        ok (first ++ second)

  -- All that a 1.21.1 client is sent on its way into the world.
  unfoldable pub join_bytes : ServerConfig → Bytes → Option ℤ → Result Bytes
  unfolding hello_bytes
  join_bytes config name before =
      let after = threshold_after config.compression.enabled config.compression.threshold before in
      do
        first ← hello_bytes config name before
        second ← frames after configuration_burst
        third ← frames after (play_burst_v1_21_1 config)
        ok (first ++ (second ++ third))

  compress_21_lem :
      (enabled : Bool) (threshold : ℤ) (conn : Connection) (bytes : Bytes)
      → compression_frame_21 enabled threshold conn.compression_threshold ≡ ok bytes
      → compress_21 enabled threshold conn ≡ (
        ok tt,
        record (extend conn bytes) {
          compression_threshold = threshold_after enabled threshold conn.compression_threshold;
        },
      )
  compress_21_lem false threshold conn bytes e = rw (← ok_inj e, append-nil conn.stream) refl
  compress_21_lem true threshold conn bytes e =
      rw (write_packet_lem S2c21.Login.s2c_set_compression (threshold, tt) conn bytes e) refl

  pub says_hello :
      (conn : Connection) (name : Bytes) (id : ℕ) (bytes : Bytes)
      → conn.state ≡ State.login
      → is_valid_username name ≡ true
      → hello_bytes conn.config name conn.compression_threshold ≡ ok bytes
      → dispatch_packet (hello_of name id) conn ≡ (
        ok tt,
        record (extend conn bytes) {
          compression_threshold =
              threshold_after conn.config.compression.enabled conn.config.compression.threshold
                conn.compression_threshold;
        },
      )
  unfolding handle_login accept_21 hello_bytes
  says_hello conn name id bytes at valid e =
      let config = conn.config in
      let enabled = config.compression.enabled in
      let threshold = config.compression.threshold in
      let after = threshold_after enabled threshold conn.compression_threshold in
      let (first, compressed, more) =
        >>=-eq-ok (compression_frame_21 enabled threshold conn.compression_threshold) _ bytes e in
      let (second, success, joined) =
        >>=-eq-ok (frame after S2c21.Login.s2c_login_success (0 & name & [] & false & tt)) _ bytes
          more in
      let conn1 = record (extend conn first) { compression_threshold = after } in
      dispatch_packet-eq (hello_of name id) conn State.login at
      ∙ rw
          (
            valid,
            compress_21_lem enabled threshold conn first compressed,
            write_packet_lem S2c21.Login.s2c_login_success (0 & name & [] & false & tt) conn1 second
                success,
          )
          (ap (λ (l : Bytes). (ok tt, record conn { stream = l; compression_threshold = after }))
            (append_assoc conn.stream first second
              ∙ ap (λ (l : Bytes). conn.stream ++ l) (ok_inj joined)))

  pub acknowledges :
      (conn : Connection) (bytes : Bytes)
      → conn.state ≡ State.login
      → frames conn.compression_threshold configuration_burst ≡ ok bytes
      → dispatch_packet login_acknowledged conn
        ≡ (ok tt, record (extend conn bytes) { state = State.configuration })
  unfolding handle_login
  acknowledges conn bytes at e =
      dispatch_packet-eq login_acknowledged conn State.login at
      ∙ (write_each_lem configuration_burst (record conn { state = State.configuration }) bytes e)

  pub finishes :
      (conn : Connection) (bytes : Bytes)
      → conn.state ≡ State.configuration
      → frames conn.compression_threshold (play_burst_v1_21_1 conn.config) ≡ ok bytes
      → dispatch_packet finish_configuration_ack conn
        ≡ (ok tt, record (extend conn bytes) { state = State.play })
  unfolding handle_configuration
  finishes conn bytes at e =
      dispatch_packet-eq finish_configuration_ack conn State.configuration at
      ∙ (write_each_lem (play_burst_v1_21_1 conn.config) (record conn { state = State.play }) bytes
          e)
