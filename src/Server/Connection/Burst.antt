-- ===== src/Server/Connection/Burst.antt =====
-- crates/statik_server/src/connection.rs: the packets that the handlers send, in order, and
-- crates/statik_proto/src/v1_21_1/registries.rs.
use statik_rs.Prelude.{ℕ, ◌+◌, ◌-◌, ◌*◌, ◌/◌, ◌%◌, ◌^◌, none, List, [], ◌∷◌, ◌++◌}
use statik_rs.Prelude.{true, false, ltb, leb, ◌==◌, if◌then◌else◌}
use statik_rs.Prelude.Int.{ℤ, pos, negsuc, as_signed, as_unsigned}
use mathlib.Core.List.{map}
use statik_rs.Core.Status.{Chat, StatusResponse, new_players, new_status_response}
use statik_rs.Core.Position.{BlockPos}
use statik_rs.Core.Result.{Bytes}
use statik_rs.Core.VarInt.{encode_varint}
use statik_rs.Derive.{Packet, Body, ◌&◌}
use statik_rs.Proto.Chunk.{void_chunk_bytes_v1_20_1, void_chunk_bytes_v1_21_1}
use statik_rs.Proto.V1_20_1.S2c as S2c20
use statik_rs.Proto.V1_21_1.S2c as S2c21
use statik_rs.Server.Config.{ServerConfig, Position}
use statik_rs.Server.Connection.{Assets}
use statik_rs.Server.Protocol.{ProtocolKind, protocol_version, minecraft_version}
use statik_rs.Server.Text.{text}

-- A packet to send, with its fields.
abbrev pub Outgoing : Type 0
Outgoing = (p : Packet) × Body p

-- `v as i32` of an `f64` bit pattern: towards zero, saturating, 0 for NaN.
abbrev magnitude : ℕ → ℕ
magnitude bits =
    let exponent = bits / 2 ^ 52 % 2048 in
    let fraction = bits % 2 ^ 52 in
    if ltb exponent 1023
    then 0
    else if exponent == 2047
    then (if fraction == 0 then 2 ^ 31 else 0)
    else (2 ^ 52 + fraction) * 2 ^ (exponent - 1023) / 2 ^ 52

abbrev clamp_positive : ℕ → ℤ
clamp_positive n = if leb (2 ^ 31) n then pos (2 ^ 31 - 1) else pos n

abbrev clamp_negative : ℕ → ℤ
clamp_negative n =
    if n == 0 then pos 0 else if leb (2 ^ 31) n then negsuc (2 ^ 31 - 1) else negsuc (n - 1)

unfoldable pub f64_as_i32 : ℕ → ℤ
f64_as_i32 bits =
    if bits / 2 ^ 63 % 2 == 0
    then clamp_positive (magnitude bits)
    else clamp_negative (magnitude bits)

-- `v as i8`.
abbrev pub to_i8 : ℤ → ℤ
to_i8 v = as_signed (2 ^ 8) (as_unsigned (2 ^ 8) v)

unfoldable pub spawn_block : Position → BlockPos
unfolding f64_as_i32
spawn_block p = record { x = f64_as_i32 p.x; y = f64_as_i32 p.y; z = f64_as_i32 p.z }

-- `abilities::INVULNERABLE | FLYING | CAN_FLY`, and the bit patterns of 0.05 and 0.1.
abbrev pub limbo_abilities : ℕ
limbo_abilities = 0x07

abbrev pub flying_speed : ℕ
flying_speed = 0x3d4c_cccd

abbrev pub walking_speed : ℕ
walking_speed = 0x3dcc_cccd

-- The response of `handle_status`.
abbrev pub status_response : ServerConfig → ProtocolKind → StatusResponse
status_response config protocol =
    new_status_response (text "data:image/png;base64,") (text (minecraft_version protocol))
      (protocol_version protocol) (new_players config.mc.max_players (pos 0) [])
      (record { text = config.mc.motd }) config.mc.icon false

abbrev pub invalid_username : Chat
invalid_username = record { text = text "Invalid username." }

module _ ⦃a : Assets⦄ where
  -- The burst of `handle_login`, after `S2CLoginSuccess`.
  unfoldable pub play_burst_v1_20_1 : ServerConfig → List Outgoing
  unfolding spawn_block void_chunk_bytes_v1_20_1
  play_burst_v1_20_1 config =
      let limbo = config.limbo in
      (
        S2c20.Play.s2c_login,
        pos 0
            & false
            & limbo.gamemode
            & limbo.gamemode
            & (limbo.dimension ∷ [])
            & a.registry_bytes
            & text "minecraft:overworld"
            & limbo.dimension
            & pos 0
            & config.mc.max_players
            & limbo.view_distance
            & limbo.simulation_distance
            & true
            & false
            & false
            & false
            & none
            & pos 0
            & tt,
      )
      ∷ (S2c20.Play.s2c_set_chunk_cache_center, pos 0 & pos 0 & tt)
      ∷ (S2c20.Play.s2c_set_chunk_cache_radius, limbo.view_distance & tt)
      ∷ (S2c20.Play.s2c_level_chunk_with_light, void_chunk_bytes_v1_20_1 & tt)
      ∷ (S2c20.Play.s2c_set_default_spawn_position, (spawn_block limbo.position & 0 & tt))
      ∷ (
        S2c20.Play.s2c_player_position,
        limbo.position.x & limbo.position.y & limbo.position.z & 0 & 0 & 0 & pos 0 & tt,
      )
      ∷ (S2c20.Play.s2c_player_abilities, limbo_abilities & flying_speed & walking_speed & tt)
      ∷ (S2c20.Play.s2c_game_event, 12 & 0 & tt)
      ∷ []

  -- `registries::all`.
  abbrev pub registries : List (Bytes × Bytes)
  registries =
      (text "minecraft:dimension_type", a.dimension_type)
      ∷ (text "minecraft:worldgen/biome", a.worldgen_biome)
      ∷ (text "minecraft:chat_type", a.chat_type)
      ∷ (text "minecraft:damage_type", a.damage_type)
      ∷ (text "minecraft:trim_pattern", a.trim_pattern)
      ∷ (text "minecraft:trim_material", a.trim_material)
      ∷ (text "minecraft:wolf_variant", a.wolf_variant)
      ∷ (text "minecraft:painting_variant", a.painting_variant)
      ∷ (text "minecraft:banner_pattern", a.banner_pattern)
      ∷ (text "minecraft:enchantment", a.enchantment)
      ∷ (text "minecraft:jukebox_song", a.jukebox_song)
      ∷ []

  abbrev pub registry_data : Bytes × Bytes → Outgoing
  registry_data entry = (S2c21.Configuration.s2c_registry_data, entry.0 & entry.1 & tt)

  -- `send_configuration_burst`.
  unfoldable pub configuration_burst : List Outgoing
  configuration_burst =
      (
        S2c21.Configuration.s2c_custom_payload,
        text "minecraft:brand" & (encode_varint (pos 6) ++ text "statik") & tt,
      )
        ∷ (S2c21.Configuration.s2c_feature_flags, (text "minecraft:vanilla" ∷ []) & tt)
        ∷ map registry_data registries
      ++ (S2c21.Configuration.s2c_update_tags, [] & tt)
        ∷ (
          S2c21.Configuration.s2c_known_packs,
          ((text "minecraft" & text "core" & text "1.21.1" & tt) ∷ []) & tt,
        )
        ∷ (S2c21.Configuration.s2c_finish_configuration, tt)
        ∷ []

  -- `send_play_burst_v1_21_1`.
  unfoldable pub play_burst_v1_21_1 : ServerConfig → List Outgoing
  unfolding spawn_block void_chunk_bytes_v1_21_1
  play_burst_v1_21_1 config =
      let limbo = config.limbo in
      (
        S2c21.Play.s2c_login,
        pos 0
            & false
            & (limbo.dimension ∷ [])
            & config.mc.max_players
            & limbo.view_distance
            & limbo.simulation_distance
            & false
            & false
            & false
            & (pos 0
                & limbo.dimension
                & pos 0
                & to_i8 limbo.gamemode
                & 0xff
                & false
                & true
                & none
                & pos 0
                & tt)
            & false
            & tt,
      )
      ∷ (S2c21.Play.s2c_set_chunk_cache_center, pos 0 & pos 0 & tt)
      ∷ (S2c21.Play.s2c_set_chunk_cache_radius, limbo.view_distance & tt)
      ∷ (S2c21.Play.s2c_chunk_batch_start, tt)
      ∷ (S2c21.Play.s2c_level_chunk_with_light, void_chunk_bytes_v1_21_1 & tt)
      ∷ (S2c21.Play.s2c_chunk_batch_finished, pos 1 & tt)
      ∷ (S2c21.Play.s2c_set_default_spawn_position, (spawn_block limbo.position & 0 & tt))
      ∷ (
        S2c21.Play.s2c_player_position,
        limbo.position.x & limbo.position.y & limbo.position.z & 0 & 0 & 0 & pos 0 & tt,
      )
      ∷ (S2c21.Play.s2c_player_abilities, limbo_abilities & flying_speed & walking_speed & tt)
      ∷ (S2c21.Play.s2c_game_event, 13 & 0 & tt)
      ∷ []
