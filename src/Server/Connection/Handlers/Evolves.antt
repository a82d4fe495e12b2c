-- ===== src/Server/Connection/Handlers/Evolves.antt =====
-- What the methods of a connection may change: the stream grows, the state may become one other
-- state, and compression may start with the configured threshold.
use statik_rs.Prelude.{
  ◌≡◌, refl, sym, ap, ◌∙◌, ◌++◌, ◌⊎◌, inl, inr, Bool, true, false, append_assoc,
}
use statik_rs.Prelude.{append-nil, some, List, [], ◌∷◌}
use statik_rs.Prelude.Int.{ℤ}
use statik_rs.Core.Crates.{Crates}
use statik_rs.Core.Result.{Result, ok, err, Bytes}
use statik_rs.Core.State.{State}
use statik_rs.Derive.{Packet, Body}
use statik_rs.Server.Connection.{Connection, Zlib, Assets}
use statik_rs.Server.Connection.Burst.{Outgoing, play_burst_v1_20_1}
use statik_rs.Server.Connection.Frame.{frame, send, write_packet}
use statik_rs.Server.Connection.Handlers.{
  set_state, set_threshold, write_each, compress_20, compress_21, accept_20, accept_21,
}
use statik_rs.Server.Exec.{◌>>=◌, Leads, Leads->>=}
use statik_rs.Proto.V1_20_1.S2c as S2c20
use statik_rs.Proto.V1_21_1.S2c as S2c21

-- Something more was written, and all else is the same.
abbrev pub Writes : Connection → Connection → Type 0
Writes s t = (bytes : Bytes) × (t ≡ record s { stream = s.stream ++ bytes })

pub Writes-none : (s : Connection) → Writes s s
Writes-none s = ([], ap (λ (b : Bytes). record s { stream = b }) (sym (append-nil s.stream)))

pub Writes-trans : (s t u : Connection) → Writes s t → Writes t u → Writes s u
Writes-trans s t u (a, first) (b, second) = (
  a ++ b,
  second
      ∙ ap (λ (k : Connection). record k { stream = k.stream ++ b }) first
      ∙ ap (λ (l : Bytes). record s { stream = l }) (append_assoc s.stream a b),
)

-- Above this, the state may have become `target`, and the threshold may have been set.
pub record Evolves (target : State) (enabled : Bool) (threshold : ℤ) (s t : Connection)
    : Type 0 where
  pub same_config : t.config ≡ s.config
  pub same_protocol : t.protocol ≡ s.protocol
  pub same_buffer : t.buffer ≡ s.buffer
  pub state_change : (t.state ≡ s.state) ⊎ (t.state ≡ target)
  pub threshold_change :
      (t.compression_threshold ≡ s.compression_threshold)
      ⊎ ((enabled ≡ true) × (t.compression_threshold ≡ some threshold))

module _ (target : State) (enabled : Bool) (threshold : ℤ) where
  pub Evolves-Writes : (s t : Connection) → Writes s t → Evolves target enabled threshold s t
  Evolves-Writes s t (bytes, e) = record {
    same_config = ap (λ (k : Connection). k.config) e;
    same_protocol = ap (λ (k : Connection). k.protocol) e;
    same_buffer = ap (λ (k : Connection). k.buffer) e;
    state_change = inl (ap (λ (k : Connection). k.state) e);
    threshold_change = inl (ap (λ (k : Connection). k.compression_threshold) e);
  }

  later :
      {A : Type 0} (P : A → Type 0) (x y z : A)
      → (y ≡ x) ⊎ P y
      → (z ≡ y) ⊎ P z
      → (P y → z ≡ y → P z)
      → (z ≡ x) ⊎ P z
  later P x y z first (inr p) move = inr p
  later P x y z (inl e) (inl f) move = inl (f ∙ e)
  later P x y z (inr p) (inl f) move = inr (move p f)

  pub Evolves-trans :
      (s t u : Connection)
      → Evolves target enabled threshold s t
      → Evolves target enabled threshold t u
      → Evolves target enabled threshold s u
  Evolves-trans s t u first second = record {
    same_config = second.same_config ∙ first.same_config;
    same_protocol = second.same_protocol ∙ first.same_protocol;
    same_buffer = second.same_buffer ∙ first.same_buffer;
    state_change =
        later (λ x. x ≡ target) s.state t.state u.state first.state_change second.state_change
          (λ p e. e ∙ p);
    threshold_change =
        later (λ x. (enabled ≡ true) × (x ≡ some threshold)) s.compression_threshold
          t.compression_threshold u.compression_threshold first.threshold_change
          second.threshold_change (λ p e. (p.0, e ∙ p.1));
  }

module _ ⦃c : Crates⦄ ⦃z : Zlib⦄ where
  send-Writes : (r : Result Bytes) → Leads Writes (send r)
  send-Writes (ok bytes) s = (bytes, refl)
  send-Writes (err e) s = Writes-none s

  pub write_packet-Writes : (p : Packet) (body : Body p) → Leads Writes (write_packet p body)
  unfolding write_packet
  write_packet-Writes p body s = send-Writes (frame s.compression_threshold p body) s

  pub write_each-Writes : (packets : List Outgoing) → Leads Writes (write_each packets)
  unfolding write_each
  write_each-Writes [] = Writes-none
  write_each-Writes ((p, body) ∷ packets) =
      Leads->>= Writes Writes-trans (write_packet p body) (λ _. write_each packets)
        (write_packet-Writes p body) (λ _. write_each-Writes packets)

  -- The conditional start of compression, and the answers to a login that is accepted.
  module _ (target : State) (threshold : ℤ) where
    set_threshold-Evolves : Leads (Evolves target true threshold) (set_threshold threshold)
    set_threshold-Evolves s = record {
      same_config = refl;
      same_protocol = refl;
      same_buffer = refl;
      state_change = inl refl;
      threshold_change = inr (refl, refl);
    }

    start_compression :
        (p : Packet) (body : Body p)
        → Leads
            (Evolves target true threshold)
            (write_packet p body >>= (λ _. set_threshold threshold))
    start_compression p body =
        Leads->>= (Evolves target true threshold) (Evolves-trans target true threshold)
          (write_packet p body) (λ _. set_threshold threshold)
          (λ s. Evolves-Writes target true threshold s _ (write_packet-Writes p body s))
          (λ _. set_threshold-Evolves)

    pub compress_20-Evolves :
        (enabled : Bool) → Leads (Evolves target enabled threshold) (compress_20 enabled threshold)
    compress_20-Evolves false s = Evolves-Writes target false threshold s s (Writes-none s)
    compress_20-Evolves true s = start_compression S2c20.Login.s2c_set_compression (threshold, tt) s

    pub compress_21-Evolves :
        (enabled : Bool) → Leads (Evolves target enabled threshold) (compress_21 enabled threshold)
    compress_21-Evolves false s = Evolves-Writes target false threshold s s (Writes-none s)
    compress_21-Evolves true s = start_compression S2c21.Login.s2c_set_compression (threshold, tt) s

    set_state-Evolves :
        (enabled : Bool) → Leads (Evolves target enabled threshold) (set_state target)
    set_state-Evolves enabled s = record {
      same_config = refl;
      same_protocol = refl;
      same_buffer = refl;
      state_change = inr refl;
      threshold_change = inl refl;
    }

    -- The state is set and the packets of a burst are written.
    pub burst-Evolves :
        (enabled : Bool) (packets : List Outgoing)
        → Leads (Evolves target enabled threshold) (set_state target >>= (λ _. write_each packets))
    burst-Evolves enabled packets =
        Leads->>= (Evolves target enabled threshold) (Evolves-trans target enabled threshold)
          (set_state target) (λ _. write_each packets) (set_state-Evolves enabled)
          (λ _ s. Evolves-Writes target enabled threshold s _ (write_each-Writes packets s))

  module _ ⦃a : Assets⦄ where
    pub accept_20-Evolves :
        (username : Bytes) (s : Connection)
        → Evolves State.play s.config.compression.enabled s.config.compression.threshold s
            (accept_20 username s).1
    unfolding accept_20
    accept_20-Evolves username s =
        let enabled = s.config.compression.enabled in
        let threshold = s.config.compression.threshold in
        let R = Evolves State.play enabled threshold in
        Leads->>= R (Evolves-trans State.play enabled threshold) (compress_20 enabled threshold) _
          (compress_20-Evolves State.play threshold enabled)
          (λ _.
            Leads->>= R (Evolves-trans State.play enabled threshold)
              (write_packet S2c20.Login.s2c_login_success _) _
              (λ t. Evolves-Writes State.play enabled threshold t _ (write_packet-Writes _ _ t))
              (λ _. burst-Evolves State.play threshold enabled (play_burst_v1_20_1 s.config)))
          s

    -- After the login of a 1.21.1 client the state is still Login.
    pub accept_21-Evolves :
        (username : Bytes) (s : Connection)
        → Evolves State.login s.config.compression.enabled s.config.compression.threshold s
            (accept_21 username s).1
    unfolding accept_21
    accept_21-Evolves username s =
        let enabled = s.config.compression.enabled in
        let threshold = s.config.compression.threshold in
        Leads->>= (Evolves State.login enabled threshold)
          (Evolves-trans State.login enabled threshold) (compress_21 enabled threshold) _
          (compress_21-Evolves State.login threshold enabled)
          (λ _ t. Evolves-Writes State.login enabled threshold t _ (write_packet-Writes _ _ t)) s
