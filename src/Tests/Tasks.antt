-- ===== src/Tests/Tasks.antt =====
-- The task of a connection, the management interface and bit sets on examples.
use statik_rs.Prelude.{◌≡◌, ◌⊎◌, refl, Bool, true, none, some, List, [], ◌∷◌, ◌++◌, arith}
use statik_rs.Prelude.Int.{pos, negsuc}
use statik_rs.Core.BitSet.{BitSet, from_slots, encode_bit_set, decode_bit_set}
use statik_rs.Core.BitSet.RoundTrip.{decode_bit_set-encode_bit_set, decode_bit_set-negsuc}
use statik_rs.Core.Result.{
  ok, err, Bytes, unexpected_eof, capacity_overflow, zlib_failed, connection_ended,
}
use statik_rs.Core.VarInt.{decode_varint, decode_loop}
use statik_rs.Server.Api.{ApiRequest, dispatch}
use statik_rs.Server.Api.Token.{HasToken, dispatch_lem}
use statik_rs.Server.Config.{ServerConfig, default_config, default_api}
use statik_rs.Server.Handler.{Turn, run}
use statik_rs.Server.Handler.Turns.{run_lem, run-none}
use statik_rs.Server.Protocol.{ProtocolKind, from_str}
use statik_rs.Server.Shutdown.{Broadcast, new_shutdown}
use statik_rs.Server.Text.{text, chars}
use statik_rs.Tests.Instances.{crates, crates-IsByteOrder}

abbrev lost : Turn
lost = Turn.returned (err unexpected_eof)

abbrev broken : Turn
broken = Turn.returned (err zlib_failed)

abbrev silent : List Turn
silent = Turn.notice Broadcast.closed ∷ []

run_lem_example : run (silent ++ broken ∷ lost ∷ []) new_shutdown ≡ some (err connection_ended)
run_lem_example = run_lem silent (lost ∷ []) broken (err connection_ended) (refl, tt) refl

run-none_example : run silent new_shutdown ≡ none
run-none_example = run-none silent (refl, tt)

-- A channel on which everybody listens.
abbrev send : Bytes → List Bytes → Bool × List Bytes
send reason sent = (true, reason ∷ sent)

abbrev guarded : ServerConfig
guarded = record default_config { api = record default_api { token = some (text "secret") } }

abbrev stop : ApiRequest
stop = record { action = text "shutdown"; token = some (text "guess"); reason = none }

dispatch_lem_example :
    ((dispatch send stop guarded []).1 ≡ [])
    ⊎ ((stop.action ≡ text "shutdown") × HasToken guarded stop)
dispatch_lem_example = dispatch_lem send stop guarded []

abbrev two_slots : BitSet
two_slots = from_slots (pos 5 ∷ negsuc 0 ∷ [])

decode_bit_set-encode_bit_set_example :
    (bytes : Bytes) × (encode_bit_set ⦃c = crates⦄ two_slots ≡ ok bytes)
    × ((rest : Bytes) → decode_bit_set ⦃c = crates⦄ (bytes ++ rest) ≡ ok (two_slots, rest))
decode_bit_set-encode_bit_set_example =
    decode_bit_set-encode_bit_set ⦃c = crates⦄ crates-IsByteOrder two_slots
      (omega arith, (omega arith, (omega arith, tt)))

abbrev minus_one : Bytes
minus_one = 0xff ∷ 0xff ∷ 0xff ∷ 0xff ∷ 0x0f ∷ []

read_minus_one : decode_varint minus_one ≡ ok (negsuc 0, [])
unfolding decode_varint decode_loop
read_minus_one = refl

decode_bit_set-negsuc_example : decode_bit_set ⦃c = crates⦄ minus_one ≡ err capacity_overflow
decode_bit_set-negsuc_example = decode_bit_set-negsuc ⦃c = crates⦄ minus_one [] 0 read_minus_one

-- A no-break space around the version, in UTF-8.
padded : from_str (chars (0xc2 ∷ 0xa0 ∷ text "1.21.1")) ≡ ok ProtocolKind.v1_21_1
unfolding from_str chars
padded = refl
