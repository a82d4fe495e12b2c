-- ===== src/Program/Tuned.antt =====
-- src/main.rs: while the program's loop goes on, every task and `main` itself listen for a shutdown.
use mathlib.Core.Path.{subst}
use statik_rs.Prelude.{ℕ, ◌≡◌, ◌≢◌, refl, sym, ap, ◌∙◌, Bool}
use statik_rs.Prelude.{Option, none, some, List, [], ◌∷◌, ◌++◌, All, if◌then◌else◌}
use statik_rs.Core.Result.{Result, ok, err, Bytes, nobody_listens}
use statik_rs.Program.{
  Program, Happening, Phase, start, after_shutdown, stop, told, happen, proceed, main_loop,
}
use statik_rs.Program.Start.{start_ok}
use statik_rs.Server.Accept.{Server, Occurrence, occur, shutdown}
use statik_rs.Server.Accept.Graceful.{AllListening, occur-AllListening}
use statik_rs.Server.Accept.Tasks.{IsListening}
use statik_rs.Server.Api.{ApiRequest, reason_or}
use statik_rs.Server.Api.Effect.{handle-keeps}
use statik_rs.Server.Channels.{Channels, IsBroadcast}
use statik_rs.Server.Config.{ServerConfig}
use statik_rs.Server.Shutdown.{Broadcast}

module _ ⦃c : Channels⦄ where
  open c use {Channel, Receiver}

  running_inj : {p q : Program Channel Receiver} → Phase.running p ≡ Phase.running q → p ≡ q
  running_inj e = cc

  after_shutdown-running :
      (p q : Program Channel Receiver) (r : Result (Unit {0}) × Server Channel Receiver)
      → after_shutdown p r ≢ Phase.running q
  after_shutdown-running p q (ok done, s) e = cc
  after_shutdown-running p q (err x, s) e = cc

  after_shutdown-ok :
      (p : Program Channel Receiver) (r : Result (Unit {0}) × Server Channel Receiver)
      → r.0 ≡ ok tt
      → after_shutdown p r ≡ Phase.stopped (record p { server = r.1 })
  after_shutdown-ok p (ok done, s) e = refl
  after_shutdown-ok p (err x, s) e = cc

  proceed-running :
      (next : Program Channel Receiver → Phase Channel Receiver) (x : Phase Channel Receiver)
      → (q : Program Channel Receiver) → proceed next x ≡ Phase.running q
      → (p : Program Channel Receiver) × (x ≡ Phase.running p) × (next p ≡ Phase.running q)
  proceed-running next (Phase.running p) q e = (p, refl, e)
  proceed-running next (Phase.stopped p) q e = cc
  proceed-running next (Phase.failed x) q e = cc

module _ ⦃c : Channels⦄ (laws : IsBroadcast c) (parse : List ℕ → Option ApiRequest) where
  open c use {Channel, Receiver, channel, recv, send}
  open laws use {Listens, recv-keeps, send-heard}

  -- Every task of the server and `main` itself listen to the channel.
  pub record IsTuned (p : Program Channel Receiver) : Type 0 where
    pub tasks_listen : AllListening laws parse p.server
    pub main_listens : Listens p.shutdown_rx p.server.notify_shutdown

  pub occur-Listens :
      (r : Receiver) (o : Occurrence) (s : Server Channel Receiver)
      → Listens r s.notify_shutdown
      → Listens r (occur parse o s).notify_shutdown
  unfolding occur
  occur-Listens r Occurrence.mc_accepted s h = laws.subscribe-keeps r s.notify_shutdown h
  occur-Listens r Occurrence.mc_failed s h = h
  occur-Listens r Occurrence.api_failed s h = h
  occur-Listens r (Occurrence.api_accepted request) s h =
      handle-keeps send (Listens r) s.notify_shutdown h
        (λ m. laws.send-keeps r s.notify_shutdown m h) parse request s.config
  occur-Listens r (Occurrence.polled k p) s h = h

  told-IsTuned :
      (p q : Program Channel Receiver) (got : Option Broadcast × Receiver)
      → IsTuned p
      → Listens got.1 p.server.notify_shutdown
      → told p got ≡ Phase.running q
      → IsTuned q
  told-IsTuned p q (none, r) tuned h e =
      subst IsTuned (running_inj e) (record { tasks_listen = tuned.tasks_listen; main_listens = h })
  told-IsTuned p q (some (Broadcast.value m), r) tuned h e =
      absurd (after_shutdown-running (record p { shutdown_rx = r }) q _ e)
  told-IsTuned p q (some Broadcast.closed, r) tuned h e = cc
  told-IsTuned p q (some (Broadcast.lagged n), r) tuned h e = cc

  happen-IsTuned :
      (h : Happening) (p q : Program Channel Receiver)
      → IsTuned p
      → happen parse h p ≡ Phase.running q
      → IsTuned q
  happen-IsTuned (Happening.occurred o) p q tuned e = subst IsTuned (running_inj e) (record {
    tasks_listen = occur-AllListening laws parse o p.server tuned.tasks_listen;
    main_listens = occur-Listens p.shutdown_rx o p.server tuned.main_listens;
  })
  happen-IsTuned (Happening.signalled signal) p q tuned e = absurd (after_shutdown-running p q _ e)
  happen-IsTuned Happening.received p q tuned e =
      told-IsTuned p q (recv p.shutdown_rx p.server.notify_shutdown) tuned
        (recv-keeps p.shutdown_rx p.server.notify_shutdown tuned.main_listens) e

  pub main_loop-IsTuned :
      (hs : List Happening) (p q : Program Channel Receiver)
      → IsTuned p
      → main_loop parse hs p ≡ Phase.running q
      → IsTuned q
  unfolding main_loop
  main_loop-IsTuned [] p q tuned e = subst IsTuned (running_inj e) tuned
  main_loop-IsTuned (h ∷ hs) p q tuned e =
      let (mid, first, others) = proceed-running (main_loop parse hs) (happen parse h p) q e in
      main_loop-IsTuned hs mid q (happen-IsTuned h p mid tuned first) others

  pub main_loop-snoc :
      (hs : List Happening) (h : Happening) (p q : Program Channel Receiver)
      → main_loop parse hs p ≡ Phase.running q
      → main_loop parse (hs ++ h ∷ []) p ≡ proceed Phase.running (happen parse h q)
  unfolding main_loop
  main_loop-snoc [] h p q e =
      ap (λ (x : Program Channel Receiver). proceed Phase.running (happen parse h x))
        (running_inj e)
  main_loop-snoc (h' ∷ hs) h p q e =
      let (mid, first, others) = proceed-running (main_loop parse hs) (happen parse h' p) q e in
      ap (proceed (main_loop parse (hs ++ h ∷ []))) first ∙ main_loop-snoc hs h mid q others

  -- While `main` listens itself, `Server::shutdown` succeeds.
  pub stop-stopped :
      (reason : Option Bytes) (p : Program Channel Receiver)
      → IsTuned p
      → stop reason p ≡ Phase.stopped (record p { server = (shutdown reason p.server).1 })
  unfolding shutdown
  stop-stopped reason p tuned = after_shutdown-ok p (shutdown reason p.server) (
      ap (λ (heard : Bool). if heard then ok tt else err nobody_listens)
        (send-heard p.shutdown_rx p.server.notify_shutdown
          (reason_or p.server.config.mc.disconnect_msg reason) tuned.main_listens))

  pub started-IsTuned :
      (bind : Bytes → ℕ → Bool) (read : Bytes → Option Bytes) (base64 : Bytes → Bytes)
      → (config : ServerConfig) (p : Program Channel Receiver)
      → start bind read base64 config ≡ ok p
      → IsTuned p
  started-IsTuned bind read base64 config p e =
      let s = start_ok bind read base64 config p e in
      record {
        tasks_listen = subst (All (IsListening laws p.server.notify_shutdown)) (sym s.no_tasks) tt;
        main_listens =
            subst (λ (r : Receiver). Listens r p.server.notify_shutdown) (sym s.own_receiver)
              (subst (Listens channel.0) (sym s.own_channel) laws.channel-Listens);
      }
