-- ===== src/Program/Start.antt =====
-- What a program that has started looks like.
use mathlib.Core.Path.{subst}
use statik_rs.Prelude.{ℕ, ◌≡◌, refl, Bool, true, Bool-cases, inl, inr}
use statik_rs.Prelude.{Option, []}
use statik_rs.Core.Result.{ok, >>=-eq-ok, ok_inj, err-ne-ok, Bytes}
use statik_rs.Program.{Program, start}
use statik_rs.Server.Accept.{Server, with_icon, new_server}
use statik_rs.Server.Channels.{Channels}
use statik_rs.Server.Config.{ServerConfig}
use statik_rs.Server.Protocol.{ProtocolKind, from_str}
use statik_rs.Server.Text.{chars}

module _ ⦃c : Channels⦄ where
  open c use {Channel, Receiver, channel}

  module _ (bind : Bytes → ℕ → Bool) (read : Bytes → Option Bytes) (base64 : Bytes → Bytes)
      (config : ServerConfig) where
    -- The version and the addresses are good, and nobody has connected yet.
    pub record IsStarted (p : Program Channel Receiver) : Type 0 where
      pub version : from_str (chars config.mc.version) ≡ ok p.server.protocol
      pub mc_bound : bind config.general.host config.mc.port ≡ true
      pub api_bound : bind config.general.host config.api.port ≡ true
      pub configured : p.server.config ≡ with_icon read base64 config
      pub no_tasks : p.server.tasks ≡ []
      pub own_channel : p.server.notify_shutdown ≡ channel.1
      pub own_receiver : p.shutdown_rx ≡ channel.0

    new_server_ok :
        (kind : ProtocolKind) (s : Server Channel Receiver)
        → new_server bind read base64 config kind channel.1 ≡ ok s
        → (bind config.general.host config.mc.port ≡ true)
          × (bind config.general.host config.api.port ≡ true)
          × (record {
            config = with_icon read base64 config;
            protocol = kind;
            notify_shutdown = channel.1;
            tasks = [];
          }
              ≡ s)
    unfolding new_server
    new_server_ok kind s e = elim (Bool-cases (bind config.general.host config.mc.port)) [
      | inr off ↦ absurd (err-ne-ok (rw off at e))
      | inl on ↦ elim (Bool-cases (bind config.general.host config.api.port)) [
        | inr off ↦ absurd (err-ne-ok (rw (on, off) at e))
        | inl on' ↦ (on, on', ok_inj (rw (on, on') at e))
      ]
    ]

    pub start_ok :
        (p : Program Channel Receiver) → start bind read base64 config ≡ ok p → IsStarted p
    unfolding start
    start_ok p e =
        let (kind, version, more) = >>=-eq-ok (from_str (chars config.mc.version)) _ p e in
        let (s, served, made) =
          >>=-eq-ok (new_server bind read base64 config kind channel.1) _ p more in
        let (mc, api, same) = new_server_ok kind s served in
        subst IsStarted (ok_inj made) (
          subst (λ t. IsStarted (record { server = t; shutdown_rx = channel.0 })) same
            (record {
              version = version;
              mc_bound = mc;
              api_bound = api;
              configured = refl;
              no_tasks = refl;
              own_channel = refl;
              own_receiver = refl;
            }))
