-- ===== src/Server/Api/Token.antt =====
-- Who may use the management interface, and who may shut the server down.
use statik_rs.Prelude.{◌≡◌, ◌≢◌, ◌⊎◌, inl, inr, refl, ap, ◌&&◌, ◌==◌, Bool, true, false, arith}
use statik_rs.Prelude.{ℕ, Option, none, some, List, [], ◌∷◌, Bool-cases}
use statik_rs.Core.Result.{Bytes}
use statik_rs.Server.Api.{
  ApiRequest, ApiResponse, err_response, ApiError, token_is, reason_or, shut_down, act, checked,
  dispatch,
}
use statik_rs.Server.Config.{ServerConfig}
use statik_rs.Server.Text.{text, text_eq}

eq_of_test : (a b : ℕ) → (a == b) ≡ true → a ≡ b
eq_of_test a b h = ground arith

both : (p q : Bool) → (p && q) ≡ true → (p ≡ true) × (q ≡ true)
both true q h = (refl, h)
both false q h = cc

pub text_eq→eq : (s t : List ℕ) → text_eq s t ≡ true → s ≡ t
text_eq→eq [] [] h = refl
text_eq→eq [] (b ∷ t) h = cc
text_eq→eq (a ∷ s) [] h = cc
text_eq→eq (a ∷ s) (b ∷ t) h =
    let (first, others) = both (a == b) (text_eq s t) h in
    let e : a ≡ b = eq_of_test a b first in let f : s ≡ t = text_eq→eq s t others in cc

-- The request carries the configured token.
abbrev pub HasToken : ServerConfig → ApiRequest → Type 0
HasToken config request =
    (token : Bytes) × (config.api.token ≡ some token) × (request.token ≡ some token)

abbrev pub IsError : ApiResponse → Type 0
IsError response = (e : ApiError) × (response ≡ err_response e)

token_is-some :
    (expected : Bytes) (token : Option Bytes)
    → token_is expected token ≡ true
    → token ≡ some expected
token_is-some expected none h = cc
token_is-some expected (some token) h = ap (λ (t : Bytes). some t) (text_eq→eq token expected h)

module _ {S : Type 0} (send : Bytes → S → Bool × S) where
  checked_lem :
      (expected token : Option Bytes) (answer : ApiResponse × S) (s : S)
      → (expected ≡ none)
        ⊎ (((t : Bytes) × (expected ≡ some t) × (token ≡ some t))
            ⊎ (checked send expected token answer s ≡ (err_response ApiError.unauthorized, s)))
  checked_lem none token answer s = inl refl
  checked_lem (some expected) token answer s = elim (Bool-cases (token_is expected token)) [
    | inl same ↦ inr (inl (expected, refl, token_is-some expected token same))
    | inr other ↦ inr (inr (rw other refl))
  ]

  -- Where a token is configured, a request without it is answered `unauthorized` and has no effect.
  pub dispatch-HasToken :
      (request : ApiRequest) (config : ServerConfig) (s : S)
      → (config.api.token ≡ none)
        ⊎ (HasToken config request
            ⊎ (dispatch send request config s ≡ (err_response ApiError.unauthorized, s)))
  unfolding dispatch
  dispatch-HasToken request config s =
      checked_lem config.api.token request.token (act send request config s) s

  shut_down_lem :
      (expected : Option Bytes) (reason : Bytes) (s : S)
      → (expected ≡ none × ((shut_down send expected reason s).1 ≡ s)) ⊎ (expected ≢ none)
  shut_down_lem none reason s = inl (refl, refl)
  shut_down_lem (some expected) reason s = inr (λ h. cc)

  act_lem :
      (request : ApiRequest) (config : ServerConfig) (s : S)
      → ((act send request config s).1 ≡ s)
        ⊎ ((request.action ≡ text "shutdown") × (config.api.token ≢ none))
  unfolding act
  act_lem request config s = elim (Bool-cases (text_eq request.action (text "ping"))) [
    | inl ping ↦ inl (rw ping refl)
    | inr other ↦ elim (Bool-cases (text_eq request.action (text "status"))) [
      | inl status ↦ inl (rw (other, status) refl)
      | inr other' ↦ elim (Bool-cases (text_eq request.action (text "shutdown"))) [
        | inr unknown ↦ inl (rw (other, other', unknown) refl)
        | inl shutdown ↦
            elim (shut_down_lem config.api.token (reason_or config.mc.disconnect_msg request.reason)
              s) [
                | inl (off, same) ↦ inl (rw (other, other', shutdown) same)
                | inr configured ↦
                    inr (text_eq→eq request.action (text "shutdown") shutdown, configured)
              ]
      ]
    ]
  ]

  checked_keeps :
      (expected token : Option Bytes) (answer : ApiResponse × S) (s : S)
      → answer.1 ≡ s
      → (checked send expected token answer s).1 ≡ s
  checked_keeps none token answer s h = h
  checked_keeps (some expected) token answer s h = elim (Bool-cases (token_is expected token)) [
    | inl same ↦ rw same h
    | inr other ↦ rw other refl
  ]

  -- A request has no effect unless it asks for the shutdown, a token is configured, and the request
  -- carries it.
  pub dispatch_lem :
      (request : ApiRequest) (config : ServerConfig) (s : S)
      → ((dispatch send request config s).1 ≡ s)
        ⊎ ((request.action ≡ text "shutdown") × HasToken config request)
  unfolding dispatch
  dispatch_lem request config s = elim (act_lem request config s) [
    | inl same ↦
        inl (checked_keeps config.api.token request.token (act send request config s) s same)
    | inr (action, configured) ↦ elim (dispatch-HasToken request config s) [
      | inl free ↦ absurd (configured free)
      | inr (inl token) ↦ inr (action, token)
      | inr (inr refused) ↦ inl (ap (λ (r : ApiResponse × S). r.1) refused)
    ]
  ]
