-- ===== src/Server/Accept/Tasks.antt =====
-- A task that is told to shut down: it ends when it next asks the channel, and nothing keeps it from it.
use mathlib.Core.Path.{subst}
use statik_rs.Prelude.{ℕ, zero, suc, ◌≡◌, refl, sym, ap, ◌⊎◌, inl, inr, Option, none, some}
use statik_rs.Prelude.{List, [], ◌∷◌, ◌++◌, get_elem?, All}
use statik_rs.Core.Result.{Result, ok}
use statik_rs.Server.Channels.{Channels, IsBroadcast, IsNews}
use statik_rs.Server.Accept.{Task, Poll, noticed, take_turn, poll_task, poll_at}
use statik_rs.Server.Handler.{Turn, run}
use statik_rs.Server.Handler.Turns.{run_lem, undecided}
use statik_rs.Server.Shutdown.{Broadcast, new_shutdown}

pub get_elem?-append :
    {A : Type 0} (xs ys : List A) (k : ℕ) (a : A)
    → get_elem? xs k ≡ some a
    → get_elem? (xs ++ ys) k ≡ some a
get_elem?-append [] ys k a h = cc
get_elem?-append (x ∷ xs) ys zero a h = h
get_elem?-append (x ∷ xs) ys (suc k) a h = get_elem?-append xs ys k a h

pub some_inj : {A : Type 0} {x a : A} → some x ≡ some a → x ≡ a
some_inj e = cc

pub All-get :
    {A : Type 0} (P : A → Type 0) (xs : List A) (k : ℕ) (a : A)
    → All P xs
    → get_elem? xs k ≡ some a
    → P a
All-get P [] k a all h = cc
All-get P (x ∷ xs) zero a all h = subst P (some_inj h) all.0
All-get P (x ∷ xs) (suc k) a all h = All-get P xs k a all.1 h

pub All-map :
    {A : Type 0} (P Q : A → Type 0) → ((a : A) → P a → Q a) → (xs : List A) → All P xs → All Q xs
All-map P Q f [] h = tt
All-map P Q f (x ∷ xs) h = (f x h.0, All-map P Q f xs h.1)

news_ends :
    (turns : List Turn) (b : Broadcast)
    → run turns new_shutdown ≡ none
    → IsNews b
    → run (turns ++ Turn.notice b ∷ []) new_shutdown ≡ some (ok tt)
news_ends turns b going (IsNews.value reason) =
    run_lem turns [] (Turn.notice (Broadcast.value reason)) (ok tt) (undecided turns going) refl
news_ends turns b going (IsNews.lagged n) =
    run_lem turns [] (Turn.notice (Broadcast.lagged n)) (ok tt) (undecided turns going) refl

Option-cases : {A : Type 0} (o : Option A) → (o ≡ none) ⊎ ((a : A) × (o ≡ some a))
Option-cases none = inl refl
Option-cases (some a) = inr (a, refl)

module _ ⦃c : Channels⦄ (laws : IsBroadcast c) where
  open c use {Channel, Receiver}
  open laws use {Listens, Waits, recv-keeps, recv-IsNews}

  -- `Handler::run` of the task has returned.
  abbrev pub Ended : Task Receiver → Type 0
  Ended t = (r : Result (Unit {0})) × (run t.turns new_shutdown ≡ some r)

  -- It has, or it will when the task next asks the channel.
  abbrev pub IsEnding : Channel → Task Receiver → Type 0
  IsEnding ch t = Ended t ⊎ Waits t.receiver ch

  abbrev pub IsListening : Channel → Task Receiver → Type 0
  IsListening ch t = Listens t.receiver ch

  -- An ended task is left alone, another takes its turn.
  poll_task-ended :
      (p : Poll) (ch : Channel) (t : Task Receiver) (r : Result (Unit {0}))
      → run t.turns new_shutdown ≡ some r
      → poll_task p ch t ≡ t
  unfolding poll_task
  poll_task-ended p ch t r e = ap (λ o. elim o [ none ↦ take_turn p ch t | some x ↦ t ]) e

  poll_task-going :
      (p : Poll) (ch : Channel) (t : Task Receiver)
      → run t.turns new_shutdown ≡ none
      → poll_task p ch t ≡ take_turn p ch t
  unfolding poll_task
  poll_task-going p ch t e = ap (λ o. elim o [ none ↦ take_turn p ch t | some x ↦ t ]) e

  noticed-Ended :
      (t : Task Receiver) (got : Option Broadcast × Receiver) (b : Broadcast)
      → run t.turns new_shutdown ≡ none
      → got.0 ≡ some b
      → IsNews b
      → Ended (noticed t got)
  noticed-Ended t (none, r) b going e news = cc
  noticed-Ended t (some b', r) b going e news =
      let same : b ≡ b' = cc in (ok tt, news_ends t.turns b' going (subst IsNews same news))

  -- A task that is ending and asks the channel has ended.
  notified-Ended :
      (ch : Channel) (t : Task Receiver) → IsEnding ch t → Ended (poll_task Poll.notified ch t)
  notified-Ended ch t (inl (r, e)) =
      subst Ended (sym (poll_task-ended Poll.notified ch t r e)) (r, e)
  notified-Ended ch t (inr waits) = elim (Option-cases (run t.turns new_shutdown)) [
    | inr (r, e) ↦ subst Ended (sym (poll_task-ended Poll.notified ch t r e)) (r, e)
    | inl going ↦
        let (b, told, news) = recv-IsNews t.receiver ch waits in
        subst Ended (sym (poll_task-going Poll.notified ch t going))
          (noticed-Ended t (c.recv t.receiver ch) b going told news)
  ]

  pub poll_task-Ended :
      (p : Poll) (ch : Channel) (t : Task Receiver) → Ended t → Ended (poll_task p ch t)
  poll_task-Ended p ch t (r, e) = subst Ended (sym (poll_task-ended p ch t r e)) (r, e)

  pub poll_task-IsEnding :
      (p : Poll) (ch : Channel) (t : Task Receiver) → IsEnding ch t → IsEnding ch (poll_task p ch t)
  poll_task-IsEnding Poll.notified ch t h = inl (notified-Ended ch t h)
  poll_task-IsEnding (Poll.returned x) ch t (inl ended) =
      inl (poll_task-Ended (Poll.returned x) ch t ended)
  poll_task-IsEnding (Poll.returned x) ch t (inr waits) =
      elim (Option-cases (run t.turns new_shutdown)) [
        | inr (r, e) ↦ inl (poll_task-Ended (Poll.returned x) ch t (r, e))
        | inl going ↦
            subst (IsEnding ch) (sym (poll_task-going (Poll.returned x) ch t going)) (inr waits)
      ]

  noticed-receiver :
      (t : Task Receiver) (got : Option Broadcast × Receiver) → (noticed t got).receiver ≡ got.1
  noticed-receiver t (none, r) = refl
  noticed-receiver t (some b, r) = refl

  take_turn-IsListening :
      (p : Poll) (ch : Channel) (t : Task Receiver)
      → IsListening ch t
      → IsListening ch (take_turn p ch t)
  take_turn-IsListening (Poll.returned x) ch t h = h
  take_turn-IsListening Poll.notified ch t h =
      subst (λ r. Listens r ch) (sym (noticed-receiver t (c.recv t.receiver ch)))
        (recv-keeps t.receiver ch h)

  poll_task-IsListening :
      (p : Poll) (ch : Channel) (t : Task Receiver)
      → IsListening ch t
      → IsListening ch (poll_task p ch t)
  poll_task-IsListening p ch t h = elim (Option-cases (run t.turns new_shutdown)) [
    | inr (r, e) ↦ subst (IsListening ch) (sym (poll_task-ended p ch t r e)) h
    | inl going ↦
        subst (IsListening ch) (sym (poll_task-going p ch t going)) (take_turn-IsListening p ch t h)
  ]

  -- The task in place k satisfies P.
  abbrev pub IsAt : (Task Receiver → Type 0) → ℕ → List (Task Receiver) → Type 0
  IsAt P k ts = (t : Task Receiver) × (get_elem? ts k ≡ some t) × P t

  pub poll_at-keeps :
      (P : Task Receiver → Type 0) (p : Poll) (ch : Channel)
      → ((t : Task Receiver) → P t → P (poll_task p ch t))
      → (i k : ℕ) (ts : List (Task Receiver)) → IsAt P k ts
      → IsAt P k (poll_at i p ch ts)
  unfolding poll_at
  poll_at-keeps P p ch f i k [] (t, e, h) = cc
  poll_at-keeps P p ch f zero zero (u ∷ ts) (t, e, h) =
      (poll_task p ch u, refl, f u (subst P (sym (some_inj e)) h))
  poll_at-keeps P p ch f zero (suc k) (u ∷ ts) h = h
  poll_at-keeps P p ch f (suc i) zero (u ∷ ts) h = h
  poll_at-keeps P p ch f (suc i) (suc k) (u ∷ ts) h = poll_at-keeps P p ch f i k ts h

  pub poll_at-Ended :
      (ch : Channel) (k : ℕ) (ts : List (Task Receiver))
      → IsAt (IsEnding ch) k ts
      → IsAt Ended k (poll_at k Poll.notified ch ts)
  unfolding poll_at
  poll_at-Ended ch k [] (t, e, h) = cc
  poll_at-Ended ch zero (u ∷ ts) (t, e, h) = (
    poll_task Poll.notified ch u,
    refl,
    notified-Ended ch u (subst (IsEnding ch) (sym (some_inj e)) h),
  )
  poll_at-Ended ch (suc k) (u ∷ ts) h = poll_at-Ended ch k ts h

  pub poll_at-IsListening :
      (p : Poll) (ch : Channel) (i : ℕ) (ts : List (Task Receiver))
      → All (IsListening ch) ts
      → All (IsListening ch) (poll_at i p ch ts)
  unfolding poll_at
  poll_at-IsListening p ch i [] h = tt
  poll_at-IsListening p ch zero (t ∷ ts) h = (poll_task-IsListening p ch t h.0, h.1)
  poll_at-IsListening p ch (suc i) (t ∷ ts) h = (h.0, poll_at-IsListening p ch i ts h.1)
