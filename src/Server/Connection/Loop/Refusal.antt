-- ===== src/Server/Connection/Loop/Refusal.antt =====
-- `handle_connection` where a packet in the middle of what a client sends is refused by its handler.
use mathlib.Core.List.{map, flatten}
use mathlib.Core.Path.{subst}
use statik_rs.Prelude.{ℕ, zero, suc, ◌<◌, ◌≡◌, refl, sym, ap, ◌∙◌, arith, length}
use statik_rs.Prelude.{some, List, [], ◌∷◌, ◌++◌, ◌⊎◌, inl, inr, append_assoc, append-nil}
use statik_rs.Prelude.{length-append, All, append_cut}
use statik_rs.Prelude.Int.{ℤ}
use statik_rs.Core.Crates.{Crates, IsByteOrder}
use statik_rs.Core.Result.{Error, ok, err, Bytes}
use statik_rs.Server.Connection.{Connection, Zlib, IsZlib, Assets}
use statik_rs.Server.Connection.Frame.{try_parse_packet}
use statik_rs.Server.Connection.Handlers.{dispatch_packet}
use statik_rs.Server.Connection.Loop.{Event, Outcome, dispatched, parsed, drain, handle_connection}
use statik_rs.Server.Connection.Loop.Chunks.{IsSome, waits, drain_waits, reads}
use statik_rs.Server.Connection.Loop.Conversation.{
  holding, IsExpected, frame_of, Answers, drain_turn, delivered_as, frame_some, no_fuel,
}
use statik_rs.Server.Protocol.{DecodedC2s}

module _ ⦃c : Crates⦄ ⦃z : Zlib⦄ ⦃a : Assets⦄ where
  -- Whatever stands in the read buffer, the handler of a packet fails and leaves this connection.
  abbrev pub Refuses : Connection → DecodedC2s → Error → Connection → Type 0
  Refuses s p e u = (rest : Bytes) → dispatch_packet p (holding s rest) ≡ (err e, holding u rest)

  -- Packets that are answered, then one that is refused, then any bytes.
  pub data Refusal (e : Error) (u : Connection) : Connection → Bytes → Type 0 where
    refused :
        (s : Connection) (p : DecodedC2s) (first rest : Bytes)
        → IsExpected s p
        → frame_of s.compression_threshold p ≡ ok first
        → Refuses s p e u
        → Refusal e u s (first ++ rest)
    turn :
        (s t : Connection) (p : DecodedC2s) (first others : Bytes)
        → IsExpected s p
        → frame_of s.compression_threshold p ≡ ok first
        → Answers s p t
        → Refusal e u t others
        → Refusal e u s (first ++ others)

  -- The drain has met the refusal.
  abbrev Fails : ℕ → Connection → Bytes → Error → Connection → Type 0
  Fails fuel s b e u = (left : Bytes) × (drain fuel (holding s b) ≡ some (err e, holding u left))

  -- The drain waits for more, on the way to the refusal.
  record OnTheWay (fuel : ℕ) (s : Connection) (b more : Bytes) (e : Error) (u : Connection)
      : Type 0 where
    pub now : Connection
    pub left : Bytes
    pub drained : drain fuel (holding s b) ≡ some (ok tt, holding now left)
    pub goes_on : Refusal e u now (left ++ more)

  drain_fails :
      (fuel : ℕ) (s t u : Connection) (p : DecodedC2s) (e : Error)
      → try_parse_packet s ≡ (ok (some p), t)
      → dispatch_packet p t ≡ (err e, u)
      → drain (suc fuel) s ≡ some (err e, u)
  unfolding drain
  drain_fails fuel s t u p e parse refusal =
      ap (parsed (drain fuel)) parse ∙ ap (dispatched (drain fuel)) refusal

  module _ (order : IsByteOrder c) (zlib : IsZlib z) where
    shorter :
        (s : Connection) (p : DecodedC2s) (first b rest : Bytes) (fuel : ℕ)
        → IsExpected s p
        → frame_of s.compression_threshold p ≡ ok first
        → b ≡ first ++ rest
        → length b < suc fuel
        → length rest < fuel
    shorter s p first b rest fuel expected framed here below = omega (
      arith,
      ap (λ (l : Bytes). length l) here,
      length-append first rest,
      frame_some order zlib s p first expected framed,
    )

    taken :
        (fuel : ℕ) (s t : Connection) (p : DecodedC2s) (first b rest : Bytes)
        → IsExpected s p
        → frame_of s.compression_threshold p ≡ ok first
        → Answers s p t
        → b ≡ first ++ rest
        → drain (suc fuel) (holding s b) ≡ drain fuel (holding t rest)
    taken fuel s t p first b rest expected framed answers here =
        ap (λ (l : Bytes). drain (suc fuel) (holding s l)) here
        ∙ drain_turn fuel _ _ _ p (delivered_as order zlib s p first rest expected framed)
            (answers rest)

    -- All the bytes are there.
    drain_refused :
        (fuel : ℕ) (s u : Connection) (bytes : Bytes) (e : Error)
        → length bytes < fuel
        → Refusal e u s bytes
        → Fails fuel s bytes e u
    drain_refused zero s u bytes e below refusal = absurd (no_fuel (length bytes) below)
    drain_refused (suc fuel) s u bytes e below
          (Refusal.refused _ p first rest expected framed refuses) =
        (
          rest,
          drain_fails fuel _ _ _ p e (delivered_as order zlib s p first rest expected framed)
              (refuses rest),
        )
    drain_refused (suc fuel) s u bytes e below
          (Refusal.turn _ t p first others expected framed answers more) =
        let (left, fails) =
          drain_refused fuel t u others e
            (shorter s p first (first ++ others) others fuel expected framed refl below) more in
        (left, taken fuel s t p first _ others expected framed answers refl ∙ fails)

    -- A part of them is there.
    progress :
        (fuel : ℕ) (s u : Connection) (bytes b more : Bytes) (e : Error)
        → length b < fuel
        → bytes ≡ b ++ more
        → Refusal e u s bytes
        → Fails fuel s b e u ⊎ OnTheWay fuel s b more e u
    progress zero s u bytes b more e below at refusal = absurd (no_fuel (length b) below)
    progress (suc fuel) s u bytes b more e below at
          (Refusal.refused _ p first rest expected framed refuses) =
        elim (append_cut first rest b more at) [
          | inl (b', here, there) ↦ inl (
            b',
            ap (λ (l : Bytes). drain (suc fuel) (holding s l)) here
                ∙ drain_fails fuel _ _ _ p e (delivered_as order zlib s p first b' expected framed)
                    (refuses b'),
          )
          | inr (r, here, missing) ↦ inr (record {
            now = s;
            left = b;
            drained = drain_waits fuel s b (waits s p first b r expected framed here missing);
            goes_on =
                subst (λ (l : Bytes). Refusal e u s l) at
                  (Refusal.refused s p first rest expected framed refuses);
          })
        ]
    progress (suc fuel) s u bytes b more e below at
          (Refusal.turn _ t p first others expected framed answers talk) =
        elim (append_cut first others b more at) [
          | inl (b', here, there) ↦
              let step = taken fuel s t p first b b' expected framed answers here in
              elim (progress fuel t u others b' more e
                (shorter s p first b b' fuel expected framed here below) there talk) [
                  | inl (left, fails) ↦ inl (left, step ∙ fails)
                  | inr k ↦ inr (record {
                    now = k.now;
                    left = k.left;
                    drained = step ∙ k.drained;
                    goes_on = k.goes_on;
                  })
                ]
          | inr (r, here, missing) ↦ inr (record {
            now = s;
            left = b;
            drained = drain_waits fuel s b (waits s p first b r expected framed here missing);
            goes_on =
                subst (λ (l : Bytes). Refusal e u s l) at
                  (Refusal.turn s t p first others expected framed answers talk);
          })
        ]

    from_buffer :
        (chunks : List Bytes) (s u : Connection) (b : Bytes) (e : Error) (id : ℤ)
        → All IsSome chunks
        → Refusal e u s (b ++ flatten chunks)
        → (left : Bytes) × (handle_connection (map Event.read chunks) id (holding s b)
            ≡ Outcome.ended e (holding u left))
    unfolding handle_connection flatten
    from_buffer [] s u b e id full refusal =
        let (left, fails) =
          drain_refused (suc (length b)) s u b e (omega arith)
            (subst (λ (l : Bytes). Refusal e u s l) (append-nil b) refusal) in
        (left, rw fails refl)
    from_buffer (chunk ∷ chunks) s u b e id (here, full) refusal =
        elim (progress (suc (length b)) s u _ b (chunk ++ flatten chunks) e (omega arith) refl
          refusal) [
            | inl (left, fails) ↦ (left, rw fails refl)
            | inr k ↦
                let (left, fails) = from_buffer chunks k.now u (k.left ++ chunk) e id full (
                  subst (λ (l : Bytes). Refusal e u k.now l)
                    (sym (append_assoc k.left chunk (flatten chunks))) k.goes_on) in
                (left, rw (k.drained, reads order zlib k.now k.left chunk id here) fails)
          ]

    -- However what a client sends is cut into chunks: the packets before one that its handler
    -- refuses are answered, and then the loop returns the handler's error; no packet behind it is.
    pub handle_connection-Refusal :
        (chunks : List Bytes) (s u : Connection) (e : Error) (id : ℤ)
        → All IsSome chunks
        → Refusal e u s (s.buffer ++ flatten chunks)
        → (left : Bytes) × (handle_connection (map Event.read chunks) id s
            ≡ Outcome.ended e (holding u left))
    handle_connection-Refusal chunks s u e id full refusal =
        from_buffer chunks s u s.buffer e id full refusal
