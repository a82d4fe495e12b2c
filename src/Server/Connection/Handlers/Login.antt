-- ===== src/Server/Connection/Handlers/Login.antt =====
-- `handle_login`: what is sent to a client that logs in, and who gets in.
use statik_rs.Prelude.{
  ℕ, ◌≡◌, ◌≢◌, refl, sym, ap, ◌∙◌, ◌++◌, inl, inr, Bool, true, false, Bool-cases,
}
use statik_rs.Prelude.{◌≤◌, All, length, append_assoc, append-nil, Option, []}
use statik_rs.Prelude.Int.{ℤ}
use statik_rs.Core.Crates.{Crates}
use statik_rs.Core.Result.{Result, ok, ◌>>=◌, >>=-eq-ok, ok_inj, Bytes}
use statik_rs.Core.State.{State}
use statik_rs.Derive.{◌&◌}
use statik_rs.Proto.V1_20_1.C2s as C2s20
use statik_rs.Proto.V1_20_1.S2c as S2c20
use statik_rs.Proto.V1_21_1.C2s as C2s21
use statik_rs.Proto.V1_21_1.S2c as S2c21
use statik_rs.Server.Config.{ServerConfig}
use statik_rs.Server.Connection.{Connection, Zlib, Assets}
use statik_rs.Server.Connection.Burst.{invalid_username, play_burst_v1_20_1, configuration_burst}
use statik_rs.Server.Connection.Frame.{frame}
use statik_rs.Server.Connection.Handlers.{handle_login, accept_20, compress_20}
use statik_rs.Server.Connection.Handlers.Sent.{
  frames, extend, write_packet_lem, write_each_lem, threshold_after,
}
use statik_rs.Server.Connection.Handlers.Evolves.{
  write_packet-Writes, write_each-Writes, accept_21-Evolves,
}
use statik_rs.Server.Connection.Username.{IsNameChar, is_valid_username, is_valid_username_lem}
use statik_rs.Server.Protocol.{DecodedC2s}

module _ ⦃c : Crates⦄ ⦃z : Zlib⦄ where
  -- `S2CSetCompression`, if it is configured, under the threshold before it.
  abbrev pub compression_frame : Bool → ℤ → Option ℤ → Result Bytes
  compression_frame false threshold before = ok []
  compression_frame true threshold before =
      frame before S2c20.Login.s2c_set_compression (threshold, tt)

  compress_20_lem :
      (enabled : Bool) (threshold : ℤ) (conn : Connection) (bytes : Bytes)
      → compression_frame enabled threshold conn.compression_threshold ≡ ok bytes
      → compress_20 enabled threshold conn ≡ (
        ok tt,
        record (extend conn bytes) {
          compression_threshold = threshold_after enabled threshold conn.compression_threshold;
        },
      )
  compress_20_lem false threshold conn bytes e = rw (← ok_inj e, append-nil conn.stream) refl
  compress_20_lem true threshold conn bytes e =
      rw (write_packet_lem S2c20.Login.s2c_set_compression (threshold, tt) conn bytes e) refl

  module _ ⦃a : Assets⦄ where
    -- All that a 1.20.1 client is sent when it logs in: the compression packet as before, and what
    -- follows with compression on.
    unfoldable pub login_bytes : ServerConfig → Bytes → Option ℤ → Result Bytes
    login_bytes config username before =
        let enabled = config.compression.enabled in
        let threshold = config.compression.threshold in
        let after = threshold_after enabled threshold before in
        do
          first ← compression_frame enabled threshold before
          second ← frame after S2c20.Login.s2c_login_success (0 & username & [] & tt)
          others ← frames after (play_burst_v1_20_1 config)
          ok (first ++ (second ++ others))

    -- A `LoginStart` of 1.20.1 with an acceptable name, when all packets can be encoded: the bytes
    -- written are `S2CSetCompression` (if configured) in the old framing, then `S2CLoginSuccess` and
    -- the packets of the Play burst in the new framing; the client is then in Play and compression is
    -- as configured.
    pub handle_login_lem :
        (conn : Connection) (username bytes : Bytes) (rest : Option _ × Unit {0})
        → is_valid_username username ≡ true
        → login_bytes conn.config username conn.compression_threshold ≡ ok bytes
        → handle_login (DecodedC2s.v1_20_1 (C2s20.C2sPacket.login_start, (username, rest))) conn ≡ (
          ok tt,
          record (extend conn bytes) {
            state = State.play;
            compression_threshold =
                threshold_after conn.config.compression.enabled conn.config.compression.threshold
                  conn.compression_threshold;
          },
        )
    unfolding handle_login accept_20 login_bytes
    handle_login_lem conn username bytes rest valid e =
        let config = conn.config in
        let enabled = config.compression.enabled in
        let threshold = config.compression.threshold in
        let after = threshold_after enabled threshold conn.compression_threshold in
        let (first, compressed, e1) =
          >>=-eq-ok (compression_frame enabled threshold conn.compression_threshold) _ bytes e in
        let (second, success, e2) =
          >>=-eq-ok (frame after S2c20.Login.s2c_login_success (0 & username & [] & tt)) _ bytes
            e1 in
        let (others, burst, joined) =
          >>=-eq-ok (frames after (play_burst_v1_20_1 config)) _ bytes e2 in
        let conn1 = record (extend conn first) { compression_threshold = after } in
        let conn2 = record (extend conn1 second) { state = State.play } in
        rw
          (
            valid,
            compress_20_lem enabled threshold conn first compressed,
            write_packet_lem S2c20.Login.s2c_login_success (0 & username & [] & tt) conn1 second
                success,
            write_each_lem (play_burst_v1_20_1 config) conn2 others burst,
          )
          (ap
            (λ (l : Bytes). (
              ok tt,
              record conn { stream = l; state = State.play; compression_threshold = after },
            ))
            (append_assoc (conn.stream ++ first) second others
              ∙ append_assoc conn.stream first (second ++ others)
              ∙ ap (λ (l : Bytes). conn.stream ++ l) (ok_inj joined)))

    -- A `LoginStart` whose name is accepted.
    abbrev pub IsAccepted : DecodedC2s → Type 0
    IsAccepted packet =
        (username : Bytes) × (rest : Option ℕ × Unit {0}) × (3 ≤ length username)
        × (length username ≤ 16)
        × All IsNameChar username
        × (packet ≡ DecodedC2s.v1_20_1 (C2s20.C2sPacket.login_start, (username, rest)))

    not_there : {s : State} {P : Type 0} → s ≡ State.login → s ≡ State.play → P
    not_there at there = absurd (play-ne (sym at ∙ there))
      where
        play-ne : State.login ≢ State.play
        play-ne h = cc

    -- The only packet that takes a client from Login to Play is a 1.20.1 `LoginStart` with a
    -- name of 3 to 16 ASCII letters, digits and underscores, also where writing an answer fails.
    pub handle_login-IsAccepted :
        (packet : DecodedC2s) (conn : Connection)
        → conn.state ≡ State.login
        → (handle_login packet conn).1.state ≡ State.play
        → IsAccepted packet
    unfolding handle_login
    handle_login-IsAccepted (DecodedC2s.v1_20_1 (C2s20.C2sPacket.login_start, (username, rest)))
          conn at there =
        elim (Bool-cases (is_valid_username username)) [
          | inl valid ↦
              let (low, high, chars) = is_valid_username_lem username valid in
              (username, rest, low, high, chars, refl)
          | inr invalid ↦
              let (bytes, e) =
                write_packet-Writes S2c20.Login.s2c_disconnect (invalid_username, tt) conn in
              not_there (ap (λ (k : Connection). k.state) e ∙ at) (rw invalid at there)
        ]
    handle_login-IsAccepted (DecodedC2s.v1_21_1 (C2s21.C2sPacket.hello, (name, rest))) conn at
          there =
        elim (Bool-cases (is_valid_username name)) [
          | inl valid ↦ elim (accept_21-Evolves name conn).state_change [
            | inl same ↦ not_there (same ∙ at) (rw valid at there)
            | inr login ↦ not_there login (rw valid at there)
          ]
          | inr invalid ↦
              let (bytes, e) =
                write_packet-Writes S2c21.Login.s2c_disconnect (invalid_username, tt) conn in
              not_there (ap (λ (k : Connection). k.state) e ∙ at) (rw invalid at there)
        ]
    handle_login-IsAccepted (DecodedC2s.v1_21_1 (C2s21.C2sPacket.login_acknowledged, b)) conn at
          there =
        let (bytes, e) =
          write_each-Writes configuration_burst (record conn { state = State.configuration }) in
        absurd (configuration-ne (sym (ap (λ (k : Connection). k.state) e) ∙ there))
      where
        configuration-ne : State.configuration ≢ State.play
        configuration-ne h = cc
    handle_login-IsAccepted _ conn at there = not_there at there
