-- ===== src/Server/Accept/Graceful.antt =====
-- A shutdown reaches every connection: each task that was there when a message was sent ends when
-- it next asks the channel, whatever else happens before and after.
use mathlib.Core.Path.{subst}
use statik_rs.Prelude.{ℕ, ◌≡◌, refl, sym, inl, inr, Option, some}
use statik_rs.Prelude.{List, [], ◌∷◌, ◌++◌, get_elem?, All, All-append}
use statik_rs.Core.Result.{Bytes}
use statik_rs.Server.Api.{ApiRequest, ReadLine, reason_or}
use statik_rs.Server.Api.Effect.{handle-keeps, handle_shutdown}
use statik_rs.Server.Api.Token.{HasToken}
use statik_rs.Server.Accept.{Task, Server, Poll, Occurrence, occur, serve, shutdown}
use statik_rs.Server.Accept.Tasks.{
  get_elem?-append, All-get, All-map, Ended, IsEnding, IsListening, IsAt, poll_at-keeps,
  poll_at-Ended, poll_at-IsListening, poll_task-Ended, poll_task-IsEnding,
}
use statik_rs.Server.Channels.{Channels, IsBroadcast}
use statik_rs.Server.Text.{text, trim}

module _ ⦃c : Channels⦄ (laws : IsBroadcast c) (parse : List ℕ → Option ApiRequest) where
  open c use {Channel, Receiver, subscribe, send}
  open laws use {Listens, Waits}

  abbrev pub AllListening : Server Channel Receiver → Type 0
  AllListening s = All (IsListening laws s.notify_shutdown) s.tasks

  pub occur-AllListening :
      (o : Occurrence) (s : Server Channel Receiver)
      → AllListening s
      → AllListening (occur parse o s)
  unfolding occur
  occur-AllListening Occurrence.mc_accepted s h =
      All-append (IsListening laws (subscribe s.notify_shutdown).1) s.tasks _
        (All-map (IsListening laws s.notify_shutdown)
          (IsListening laws (subscribe s.notify_shutdown).1)
          (λ t. laws.subscribe-keeps t.receiver s.notify_shutdown) s.tasks h)
        (laws.subscribe-Listens s.notify_shutdown, tt)
  occur-AllListening Occurrence.mc_failed s h = h
  occur-AllListening Occurrence.api_failed s h = h
  occur-AllListening (Occurrence.api_accepted request) s h =
      handle-keeps send (λ ch. All (IsListening laws ch) s.tasks) s.notify_shutdown h
        (λ m.
          All-map (IsListening laws s.notify_shutdown)
            (IsListening laws (send m s.notify_shutdown).1)
            (λ t. laws.send-keeps t.receiver s.notify_shutdown m) s.tasks h)
        parse request s.config
  occur-AllListening (Occurrence.polled i p) s h =
      poll_at-IsListening laws p s.notify_shutdown i s.tasks h

  pub serve-AllListening :
      (os : List Occurrence) (s : Server Channel Receiver)
      → AllListening s
      → AllListening (serve parse os s)
  unfolding serve
  serve-AllListening [] s h = h
  serve-AllListening (o ∷ os) s h =
      serve-AllListening os (occur parse o s) (occur-AllListening o s h)

  -- The k-th task is ending.
  abbrev pub IsEndingAt : ℕ → Server Channel Receiver → Type 0
  IsEndingAt k s = IsAt laws (IsEnding laws s.notify_shutdown) k s.tasks

  occur-IsEndingAt :
      (o : Occurrence) (k : ℕ) (s : Server Channel Receiver)
      → IsEndingAt k s
      → IsEndingAt k (occur parse o s)
  unfolding occur
  occur-IsEndingAt Occurrence.mc_accepted k s (t, e, inl ended) =
      (t, get_elem?-append s.tasks _ k t e, inl ended)
  occur-IsEndingAt Occurrence.mc_accepted k s (t, e, inr waits) = (
    t,
    get_elem?-append s.tasks _ k t e,
    inr (laws.subscribe-Waits t.receiver s.notify_shutdown waits),
  )
  occur-IsEndingAt Occurrence.mc_failed k s h = h
  occur-IsEndingAt Occurrence.api_failed k s h = h
  occur-IsEndingAt (Occurrence.api_accepted request) k s (t, e, inl ended) = (t, e, inl ended)
  occur-IsEndingAt (Occurrence.api_accepted request) k s (t, e, inr waits) = (
    t,
    e,
    inr (
        handle-keeps send (λ ch. Waits t.receiver ch) s.notify_shutdown waits
          (λ m. laws.send-still t.receiver s.notify_shutdown m waits) parse request s.config),
  )
  occur-IsEndingAt (Occurrence.polled i p) k s h =
      poll_at-keeps laws (IsEnding laws s.notify_shutdown) p s.notify_shutdown
        (poll_task-IsEnding laws p s.notify_shutdown) i k s.tasks h

  -- The k-th task has ended.
  abbrev pub HasEndedAt : ℕ → Server Channel Receiver → Type 0
  HasEndedAt k s = IsAt laws (Ended laws) k s.tasks

  occur-HasEndedAt :
      (o : Occurrence) (k : ℕ) (s : Server Channel Receiver)
      → HasEndedAt k s
      → HasEndedAt k (occur parse o s)
  unfolding occur
  occur-HasEndedAt Occurrence.mc_accepted k s (t, e, h) = (t, get_elem?-append s.tasks _ k t e, h)
  occur-HasEndedAt Occurrence.mc_failed k s h = h
  occur-HasEndedAt Occurrence.api_failed k s h = h
  occur-HasEndedAt (Occurrence.api_accepted request) k s h = h
  occur-HasEndedAt (Occurrence.polled i p) k s h =
      poll_at-keeps laws (Ended laws) p s.notify_shutdown (poll_task-Ended laws p s.notify_shutdown)
        i k s.tasks h

  serve-HasEndedAt :
      (os : List Occurrence) (k : ℕ) (s : Server Channel Receiver)
      → HasEndedAt k s
      → HasEndedAt k (serve parse os s)
  unfolding serve
  serve-HasEndedAt [] k s h = h
  serve-HasEndedAt (o ∷ os) k s h =
      serve-HasEndedAt os k (occur parse o s) (occur-HasEndedAt o k s h)

  -- An ending task ends as soon as it asks the channel.
  pub serve-polled :
      (before after : List Occurrence) (k : ℕ) (s : Server Channel Receiver)
      → IsEndingAt k s
      → HasEndedAt k (serve parse (before ++ Occurrence.polled k Poll.notified ∷ after) s)
  unfolding serve occur
  serve-polled [] after k s h =
      serve-HasEndedAt after k _ (poll_at-Ended laws s.notify_shutdown k s.tasks h)
  serve-polled (o ∷ before) after k s h =
      serve-polled before after k (occur parse o s) (occur-IsEndingAt o k s h)

  -- Every task of a server that a message has just been sent to is ending.
  pub sent-IsEndingAt :
      (k : ℕ) (t : Task Receiver) (s : Server Channel Receiver) (m : Bytes) (ch : Channel)
      → AllListening s
      → get_elem? s.tasks k ≡ some t
      → ch ≡ (send m s.notify_shutdown).1
      → IsEndingAt k (record s { notify_shutdown = ch })
  sent-IsEndingAt k t s m ch h at sent =
      let listens = All-get (IsListening laws s.notify_shutdown) s.tasks k t h at in
      (
        t,
        at,
        inr (
            subst (Waits t.receiver) (sym sent)
              (laws.send-Waits t.receiver s.notify_shutdown m listens)),
      )

  -- A server without tasks has served anything, and `shutdown` is then called: every task that it
  -- has at that time ends when it next asks its receiver, whatever else happens before and after.
  pub shutdown-HasEndedAt :
      (s : Server Channel Receiver) (earlier before after : List Occurrence) (reason : Option Bytes)
      → (k : ℕ) (t : Task Receiver) → s.tasks ≡ []
      → get_elem? (serve parse earlier s).tasks k ≡ some t
      → HasEndedAt k (
          serve parse
            (before ++ Occurrence.polled k Poll.notified ∷ after)
            (shutdown reason (serve parse earlier s)).1)
  unfolding shutdown
  shutdown-HasEndedAt s earlier before after reason k t fresh at =
      let r = serve parse earlier s in
      let listening =
        serve-AllListening earlier s
          (subst (All (IsListening laws s.notify_shutdown)) (sym fresh) tt) in
      serve-polled before after k (shutdown reason r).1
        (sent-IsEndingAt k t r (reason_or r.config.mc.disconnect_msg reason) _ listening at refl)

  -- A server without tasks has served anything, and a request to the management interface then asks
  -- for the shutdown and carries the configured token: every task that the server has at that time
  -- ends when it next asks its receiver, whatever else happens before and after.
  pub api_shutdown-HasEndedAt :
      (s : Server Channel Receiver) (earlier before after : List Occurrence) (bytes : List ℕ)
      → (request : ApiRequest) (k : ℕ) (t : Task Receiver) → s.tasks ≡ []
      → parse (trim bytes) ≡ some request
      → request.action ≡ text "shutdown"
      → HasToken (serve parse earlier s).config request
      → get_elem? (serve parse earlier s).tasks k ≡ some t
      → HasEndedAt k (
          serve parse
            (Occurrence.api_accepted (ReadLine.line bytes) ∷ before
              ++ Occurrence.polled k Poll.notified ∷ after)
            (serve parse earlier s))
  unfolding serve occur
  api_shutdown-HasEndedAt s earlier before after bytes request k t fresh parsed action token at =
      let r = serve parse earlier s in
      let listening =
        serve-AllListening earlier s
          (subst (All (IsListening laws s.notify_shutdown)) (sym fresh) tt) in
      serve-polled before after k _ (
        sent-IsEndingAt k t r (reason_or r.config.mc.disconnect_msg request.reason) _ listening at
          (handle_shutdown send r.notify_shutdown parse bytes request r.config parsed action token))
