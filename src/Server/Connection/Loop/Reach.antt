-- ===== src/Server/Connection/Loop/Reach.antt =====
-- The runs of `handle_connection` as steps, and what holds after any number of them.
use mathlib.Core.Path.{subst}
use statik_rs.Prelude.{◌≡◌, ◌≢◌, refl, sym, ap, ◌∙◌, ◌⊎◌, inl, inr, true}
use statik_rs.Prelude.{Option, none, some, ◌++◌}
use statik_rs.Prelude.Int.{ℤ}
use statik_rs.Core.Crates.{Crates}
use statik_rs.Core.Result.{Result, ok, Bytes}
use statik_rs.Core.State.{State}
use statik_rs.Server.Config.{ServerConfig}
use statik_rs.Server.Connection.{Connection, Zlib, Assets, new_connection}
use statik_rs.Server.Connection.Frame.{try_parse_packet}
use statik_rs.Server.Connection.Frame.Soundness.{OnlyBuffer, try_parse_packet-OnlyBuffer}
use statik_rs.Server.Connection.Handlers.{dispatch_packet}
use statik_rs.Server.Connection.Handlers.Evolves.{Writes, write_packet-Writes}
use statik_rs.Server.Connection.Handlers.Moves.{Move, Handled}
use statik_rs.Server.Connection.Loop.{write_keep_alive}
use statik_rs.Server.Connection.Loop.Fuel.{parsed-Handled}
use statik_rs.Server.Protocol.{ProtocolKind, DecodedC2s}

-- Compression is off, or it is on as the configuration says and a login has begun.
abbrev pub CompressionFits : Connection → Type 0
CompressionFits conn =
    (conn.compression_threshold ≡ none)
    ⊎ ((conn.config.compression.enabled ≡ true)
        × (conn.compression_threshold ≡ some conn.config.compression.threshold)
        × (conn.state ≢ State.handshake)
        × (conn.state ≢ State.status))

-- A 1.20.1 connection is never in Configuration, and compression fits.
pub record IsSound (config : ServerConfig) (kind : ProtocolKind) (conn : Connection) : Type 0 where
  pub config_kept : conn.config ≡ config
  pub protocol_kept : conn.protocol ≡ kind
  pub no_configuration : kind ≡ ProtocolKind.v1_20_1 → conn.state ≢ State.configuration
  pub compression_fits : CompressionFits conn

never_configured :
    (k : ProtocolKind) (s t : State)
    → Move k s t
    → k ≡ ProtocolKind.v1_20_1
    → s ≢ State.configuration
    → t ≢ State.configuration
never_configured k s t (Move.stay _ _) kind h bad = h bad
never_configured k s t (Move.ask_status _) kind h bad = cc
never_configured k s t (Move.ask_login _) kind h bad = cc
never_configured k s t Move.enter_play kind h bad = cc
never_configured k s t Move.acknowledge kind h bad = cc
never_configured k s t Move.finish kind h bad = cc

abbrev IsLate : State → Type 0
IsLate s = (s ≢ State.handshake) × (s ≢ State.status)

login-IsLate : IsLate State.login
login-IsLate = (λ h. cc, λ h. cc)

still-IsLate : (k : ProtocolKind) (s t : State) → Move k s t → IsLate s → IsLate t
still-IsLate k s t (Move.stay _ _) h = h
still-IsLate k s t (Move.ask_status _) h = absurd (h.0 refl)
still-IsLate k s t (Move.ask_login _) h = absurd (h.0 refl)
still-IsLate k s t Move.enter_play h = (λ e. cc, λ e. cc)
still-IsLate k s t Move.acknowledge h = (λ e. cc, λ e. cc)
still-IsLate k s t Move.finish h = (λ e. cc, λ e. cc)

module _ ⦃c : Crates⦄ ⦃z : Zlib⦄ ⦃a : Assets⦄ where
  -- The steps of `handle_connection`, those included that fail half-way.
  pub data Step : Connection → Connection → Type 0 where
    parse : (conn : Connection) → Step conn (try_parse_packet conn).1
    dispatch :
        (conn conn' : Connection) (packet : DecodedC2s)
        → try_parse_packet conn ≡ (ok (some packet), conn')
        → Step conn (dispatch_packet packet conn').1
    receive :
        (conn : Connection) (bytes : Bytes)
        → Step conn (record conn { buffer = conn.buffer ++ bytes })
    keep_alive :
        (conn : Connection) (id : ℤ)
        → conn.state ≡ State.play
        → Step conn (write_keep_alive conn.protocol id conn).1

  pub data Steps : Connection → Connection → Type 0 where
    stop : (conn : Connection) → Steps conn conn
    next :
        (conn conn' conn'' : Connection) → Steps conn conn' → Step conn' conn'' → Steps conn conn''

  -- What every step does to the fields other than the buffer and the stream.
  pub record Steers (s t : Connection) : Type 0 where
    pub same_config : t.config ≡ s.config
    pub same_protocol : t.protocol ≡ s.protocol
    pub move : Move s.protocol s.state t.state
    pub compression :
        (t.compression_threshold ≡ s.compression_threshold)
        ⊎ ((s.state ≡ State.login)
            × (s.config.compression.enabled ≡ true)
            × (t.compression_threshold ≡ some s.config.compression.threshold))

  pub handled-Steers : (s t : Connection) → Handled s t → Steers s t
  handled-Steers s t h = record {
    same_config = h.same_config;
    same_protocol = h.same_protocol;
    move = h.move;
    compression = h.compression;
  }

  -- A step that changes the buffer or the stream only.
  pub still-Steers :
      (s : Connection) (stream buffer : Bytes)
      → Steers s (record s { stream = stream; buffer = buffer })
  still-Steers s stream buffer = record {
    same_config = refl;
    same_protocol = refl;
    move = Move.stay s.protocol s.state;
    compression = inl refl;
  }

  pub parse-Steers : (conn : Connection) → Steers conn (try_parse_packet conn).1
  parse-Steers conn =
      subst (Steers conn) (sym (try_parse_packet-OnlyBuffer conn))
        (still-Steers conn conn.stream (try_parse_packet conn).1.buffer)

  pub written-Steers : (s t : Connection) → Writes s t → Steers s t
  written-Steers s t (bytes, e) =
      subst (Steers s) (sym e) (still-Steers s (s.stream ++ bytes) s.buffer)

  pub keep_alive-Writes :
      (kind : ProtocolKind) (id : ℤ) (conn : Connection)
      → Writes conn (write_keep_alive kind id conn).1
  keep_alive-Writes ProtocolKind.v1_20_1 id conn = write_packet-Writes _ _ conn
  keep_alive-Writes ProtocolKind.v1_21_1 id conn = write_packet-Writes _ _ conn

  parsed_to :
      (conn conn' : Connection) (r : Result (Option DecodedC2s))
      → try_parse_packet conn ≡ (r, conn')
      → OnlyBuffer conn conn'
  parsed_to conn conn' r e =
      subst (OnlyBuffer conn) (ap (λ p. p.1) e) (try_parse_packet-OnlyBuffer conn)

  module _ (config : ServerConfig) (kind : ProtocolKind) where
    -- What a step keeps.
    steered-IsSound :
        (s t : Connection) → Steers s t → IsSound config kind s → IsSound config kind t
    steered-IsSound s t h sound = record {
      config_kept = h.same_config ∙ sound.config_kept;
      protocol_kept = h.same_protocol ∙ sound.protocol_kept;
      no_configuration = λ old.
          never_configured s.protocol s.state t.state h.move (sound.protocol_kept ∙ old)
            (sound.no_configuration old);
      compression_fits = fits h.compression sound.compression_fits;
    }
      where
        late : IsLate s.state → IsLate t.state
        late = still-IsLate s.protocol s.state t.state h.move

        fits :
            (t.compression_threshold ≡ s.compression_threshold)
              ⊎ ((s.state ≡ State.login)
                  × (s.config.compression.enabled ≡ true)
                  × (t.compression_threshold ≡ some s.config.compression.threshold))
            → CompressionFits s
            → CompressionFits t
        fits (inl same) (inl off) = inl (same ∙ off)
        fits (inl same) (inr (enabled, on, not_first, not_status)) =
            let (a, b) = late (not_first, not_status) in
            inr (rw h.same_config enabled, rw h.same_config (same ∙ on), a, b)
        fits (inr (at, enabled, on)) _ =
            let (a, b) = late (subst IsLate (sym at) login-IsLate) in
            inr (rw h.same_config enabled, rw h.same_config on, a, b)

    parsed-IsSound :
        (conn conn' : Connection) (r : Result (Option DecodedC2s))
        → try_parse_packet conn ≡ (r, conn')
        → IsSound config kind conn
        → IsSound config kind conn'
    parsed-IsSound conn conn' r e sound =
        subst (IsSound config kind) (ap (λ p. p.1) e)
          (steered-IsSound conn _ (parse-Steers conn) sound)

    pub Step-IsSound :
        (conn conn' : Connection)
        → Step conn conn'
        → IsSound config kind conn
        → IsSound config kind conn'
    Step-IsSound conn conn' (Step.parse _) sound = steered-IsSound conn _ (parse-Steers conn) sound
    Step-IsSound conn conn' (Step.dispatch _ mid packet e) sound =
        steered-IsSound mid _ (handled-Steers mid _ (parsed-Handled conn mid packet e))
          (parsed-IsSound conn mid (ok (some packet)) e sound)
    Step-IsSound conn conn' (Step.receive _ bytes) sound =
        steered-IsSound conn _ (still-Steers conn conn.stream (conn.buffer ++ bytes)) sound
    Step-IsSound conn conn' (Step.keep_alive _ id at) sound =
        steered-IsSound conn _ (written-Steers conn _ (keep_alive-Writes conn.protocol id conn))
          sound

    -- After any steps from a new connection: configuration and version are those it was given, a
    -- 1.20.1 client is never in the state Configuration, and compression is off unless the
    -- configuration turns it on, its threshold is the configured one, and a login has begun.
    pub Steps-IsSound :
        (conn : Connection) → Steps (new_connection config kind) conn → IsSound config kind conn
    Steps-IsSound conn steps = keeps steps fresh
      where
        fresh : IsSound config kind (new_connection config kind)
        fresh = record {
          config_kept = refl;
          protocol_kept = refl;
          no_configuration = λ old bad. cc;
          compression_fits = inl refl;
        }

        keeps : {s t : Connection} → Steps s t → IsSound config kind s → IsSound config kind t
        keeps (Steps.stop _) sound = sound
        keeps (Steps.next s mid t before step) sound = Step-IsSound mid t step (keeps before sound)
