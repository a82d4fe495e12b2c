-- ===== src/Server/Api/Effect.antt =====
-- What a request to the management interface can do to the shutdown channel.
use statik_rs.Prelude.{
  ◌≡◌, Bool, true, false, Option, none, some, List, ℕ, [], ◌∷◌, refl, sym, ap, ◌∙◌, arith,
  if◌then◌else◌,
}
use statik_rs.Core.Result.{Bytes}
use statik_rs.Server.Api.{
  ApiRequest, ReadLine, ApiResponse, token_is, reason_or, sent, shut_down, act, checked, dispatch,
  handle, respond, answered,
}
use statik_rs.Server.Api.Token.{HasToken}
use statik_rs.Server.Config.{ServerConfig}
use statik_rs.Server.Text.{text, text_eq, trim}

module _ {S : Type 0} (send : Bytes → S → Bool × S) (P : S → Type 0) where
  choose : {R : Type 0} (b : Bool) (x y : R × S) → P x.1 → P y.1 → P (if b then x else y).1
  choose true x y h k = h
  choose false x y h k = k

  -- What holds of the channel, and after any message is sent, holds after the request.
  module _ (s : S) (still : P s) (more : (m : Bytes) → P (send m s).1) where
    sent-keeps : (r : Bool × S) → P r.1 → P (sent send r).1
    sent-keeps (true, t) h = h
    sent-keeps (false, t) h = h

    shut_down-keeps : (token : Option Bytes) (reason : Bytes) → P (shut_down send token reason s).1
    shut_down-keeps none reason = still
    shut_down-keeps (some expected) reason = sent-keeps (send reason s) (more reason)

    act-keeps : (request : ApiRequest) (config : ServerConfig) → P (act send request config s).1
    unfolding act
    act-keeps request config = choose (text_eq request.action (text "ping")) _ _ still (
        choose (text_eq request.action (text "status")) _ _ still (
          choose (text_eq request.action (text "shutdown")) _ _
            (shut_down-keeps config.api.token (reason_or config.mc.disconnect_msg request.reason))
            still))

    checked-keeps :
        (expected token : Option Bytes) (answer : ApiResponse × S)
        → P answer.1
        → P (checked send expected token answer s).1
    checked-keeps none token answer h = h
    checked-keeps (some expected) token answer h = choose (token_is expected token) _ _ h still

    pub dispatch-keeps :
        (request : ApiRequest) (config : ServerConfig) → P (dispatch send request config s).1
    unfolding dispatch
    dispatch-keeps request config =
        checked-keeps config.api.token request.token (act send request config s)
          (act-keeps request config)

    respond-keeps :
        (parsed : Option ApiRequest) (config : ServerConfig) → P (respond send parsed config s).1
    respond-keeps none config = still
    respond-keeps (some request) config = dispatch-keeps request config

    pub handle-keeps :
        (parse : List ℕ → Option ApiRequest) (received : ReadLine) (config : ServerConfig)
        → P (handle send parse received config s).1
    unfolding handle
    handle-keeps parse ReadLine.end_of_stream config = still
    handle-keeps parse ReadLine.failed config = still
    handle-keeps parse (ReadLine.line bytes) config = respond-keeps (parse (trim bytes)) config

text_eq_refl : (s : List ℕ) → text_eq s s ≡ true
text_eq_refl [] = refl
text_eq_refl (a ∷ s) = ground (arith, text_eq_refl s)

module _ {S : Type 0} (send : Bytes → S → Bool × S) (s : S) where
  sent-send : (r : Bool × S) → (sent send r).1 ≡ r.1
  sent-send (true, t) = refl
  sent-send (false, t) = refl

  shut_down-send :
      (expected : Option Bytes) (token reason : Bytes)
      → expected ≡ some token
      → (shut_down send expected reason s).1 ≡ (send reason s).1
  shut_down-send none token reason e = cc
  shut_down-send (some expected) token reason e = sent-send (send reason s)

  act_shutdown :
      (request : ApiRequest) (config : ServerConfig) (token : Bytes)
      → request.action ≡ text "shutdown"
      → config.api.token ≡ some token
      → (act send request config s).1
        ≡ (send (reason_or config.mc.disconnect_msg request.reason) s).1
  unfolding act
  act_shutdown request config token e f =
      let ping : text_eq request.action (text "ping") ≡ false =
        ap (λ (a : Bytes). text_eq a (text "ping")) e in
      let status : text_eq request.action (text "status") ≡ false =
        ap (λ (a : Bytes). text_eq a (text "status")) e in
      let asked : text_eq request.action (text "shutdown") ≡ true =
        ap (λ (a : Bytes). text_eq a (text "shutdown")) e in
      rw (ping, status, asked)
        (shut_down-send config.api.token token (reason_or config.mc.disconnect_msg request.reason)
          f)

  checked-answer :
      (expected given : Option Bytes) (token : Bytes) (answer : ApiResponse × S)
      → expected ≡ some token
      → given ≡ some token
      → checked send expected given answer s ≡ answer
  checked-answer none given token answer e f = cc
  checked-answer (some expected) none token answer e f = cc
  checked-answer (some expected) (some given) token answer e f =
      let same : given ≡ expected = cc in
      let accepted : text_eq given expected ≡ true =
        ap (λ (t : Bytes). text_eq given t) (sym same) ∙ text_eq_refl given in
      rw accepted refl

  answered-send : (r : ApiResponse × S) → (answered send r).1 ≡ r.1
  answered-send (response, t) = refl

  -- A request for the shutdown with the configured token sends its reason, or the configured one.
  pub handle_shutdown :
      (parse : List ℕ → Option ApiRequest) (bytes : List ℕ) (request : ApiRequest)
      → (config : ServerConfig) → parse (trim bytes) ≡ some request
      → request.action ≡ text "shutdown"
      → HasToken config request
      → (handle send parse (ReadLine.line bytes) config s).1
        ≡ (send (reason_or config.mc.disconnect_msg request.reason) s).1
  unfolding handle dispatch
  handle_shutdown parse bytes request config e action (token, configured, given) =
      ap (λ (r : Option ApiRequest). (respond send r config s).1) e
      ∙ answered-send (dispatch send request config s)
      ∙ ap (λ (r : ApiResponse × S). r.1)
          (checked-answer config.api.token request.token token (act send request config s)
            configured given)
      ∙ act_shutdown request config token action configured
