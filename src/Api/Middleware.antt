-- ===== src/Api/Middleware.antt =====
-- The middlewares of backend/api/routes.go around a handler, in the order of NewRouter; RequestLog
-- adds the request log. A handler gives the status that it writes, or panics before it writes one
-- (`none`); `new_id` is what generateID gives.
use distributed_benchmark_pl.Base.{
  ℕ, String, Bool, true, false, Option, none, some, List, [], ◌∷◌, ◌&&◌, str_eq, if◌then◌else◌, ◌≡◌,
  ◌⊎◌, refl, inl, inr, subst, Bool-cases, Option-cases, sym, ap, ◌∙◌,
}
use distributed_benchmark_pl.Validator.{max_bytes}
use distributed_benchmark_pl.Api.{Method, get, post, put, delete_method, options}

-- A request on its way through the chain: the header that it came with (the empty text for none), the
-- headers set for the response, the latest first, and the limit on its body.
pub record Context : Type 0 where
  pub method : Method
  pub is_upload_path : Bool
  pub sent_request_id : String
  pub headers : List (String × String)
  pub body_limit : Option ℕ

-- What the client gets.
pub record Answer : Type 0 where
  pub status : ℕ
  pub headers : List (String × String)

-- The rest of the chain; `none` is a panic, whose headers stay set.
abbrev pub Next : Type 0
Next = Context → Option ℕ × List (String × String)

unfoldable pub set_header : String → String → Context → Context
set_header key value c = record c { headers = (key, value) ∷ c.headers }

unfoldable pub header : String → List (String × String) → Option String
header key [] = none
header key ((k, v) ∷ l) = let rest = header key l in if str_eq k key then some v else rest

unfoldable pub recovery : Next → Context → Answer
recovery next c =
    let out = next c in
    elim out.0 [
      | none ↦ record { status = 500; headers = out.1 }
      | some status ↦ record { status = status; headers = out.1 }
    ]

unfoldable pub request_id : String → Next → Next
request_id new_id next c = next (
    set_header "X-Request-ID" (if str_eq c.sent_request_id "" then new_id else c.sent_request_id) c)

abbrev pub is_options : Method → Bool
is_options options = true
is_options get = false
is_options post = false
is_options put = false
is_options delete_method = false

abbrev pub is_post : Method → Bool
is_post post = true
is_post get = false
is_post options = false
is_post put = false
is_post delete_method = false

unfoldable pub cors_headers : Bool → Next → Next
cors_headers is_prod next c =
    let set = set_header "Access-Control-Expose-Headers" "X-Request-ID" (
      set_header "Access-Control-Allow-Headers" "Origin,Content-Type,Authorization,X-Request-ID" (
        set_header "Access-Control-Allow-Methods" "GET,POST,PUT,DELETE,OPTIONS" (
          set_header "Access-Control-Allow-Origin"
            (if is_prod then "*" else "http://localhost:5173") c))) in
    let rest = next set in if is_options c.method then (some 204, set.headers) else rest

unfoldable pub secure_headers : Next → Next
secure_headers next c = next (
    set_header "Referrer-Policy" "strict-origin-when-cross-origin"
      (set_header "X-Frame-Options" "DENY" (set_header "X-Content-Type-Options" "nosniff" c)))

unfoldable pub limit_body : ℕ → Next → Next
limit_body max_mb next c = next (
    if c.is_upload_path && is_post c.method
    then c
    else record c { body_limit = some (max_bytes max_mb) })

-- A handler that writes no header of its own.
unfoldable pub handler : (Context → Option ℕ) → Next
handler h c = (h c, c.headers)

unfoldable pub chain : Bool → ℕ → String → (Context → Option ℕ) → Context → Answer
chain is_prod max_mb new_id h =
    recovery
      (request_id new_id (cors_headers is_prod (secure_headers (limit_body max_mb (handler h)))))

abbrev pub id_of : String → Context → String
id_of new_id c = if str_eq c.sent_request_id "" then new_id else c.sent_request_id

-- What the handler gets of a request that is not OPTIONS.
abbrev pub seen_by_handler : Bool → ℕ → String → Context → Context
seen_by_handler is_prod max_mb new_id c = record {
  method = c.method;
  is_upload_path = c.is_upload_path;
  sent_request_id = c.sent_request_id;
  headers =
      ("Referrer-Policy", "strict-origin-when-cross-origin")
      ∷ ("X-Frame-Options", "DENY")
      ∷ ("X-Content-Type-Options", "nosniff")
      ∷ ("Access-Control-Expose-Headers", "X-Request-ID")
      ∷ ("Access-Control-Allow-Headers", "Origin,Content-Type,Authorization,X-Request-ID")
      ∷ ("Access-Control-Allow-Methods", "GET,POST,PUT,DELETE,OPTIONS")
      ∷ ("Access-Control-Allow-Origin", if is_prod then "*" else "http://localhost:5173")
      ∷ ("X-Request-ID", id_of new_id c)
      ∷ c.headers;
  body_limit =
      if c.is_upload_path && is_post c.method then c.body_limit else some (max_bytes max_mb);
}

chain-handler :
    (is_prod : Bool) (max_mb : ℕ) (new_id : String) (h : Context → Option ℕ) (m : Method)
    (up : Bool) (sent : String) (hs : List (String × String)) (lim : Option ℕ)
    → is_options m ≡ false
    → let c : Context = record {
      method = m;
      is_upload_path = up;
      sent_request_id = sent;
      headers = hs;
      body_limit = lim;
    } in
      chain is_prod max_mb new_id h c
      ≡ recovery (handler h) (seen_by_handler is_prod max_mb new_id c)
unfolding chain recovery request_id cors_headers secure_headers limit_body handler set_header
chain-handler is_prod max_mb new_id h get true sent hs lim other = refl
chain-handler is_prod max_mb new_id h get false sent hs lim other = refl
chain-handler is_prod max_mb new_id h post true sent hs lim other = refl
chain-handler is_prod max_mb new_id h post false sent hs lim other = refl
chain-handler is_prod max_mb new_id h put true sent hs lim other = refl
chain-handler is_prod max_mb new_id h put false sent hs lim other = refl
chain-handler is_prod max_mb new_id h delete_method true sent hs lim other = refl
chain-handler is_prod max_mb new_id h delete_method false sent hs lim other = refl
chain-handler is_prod max_mb new_id h options up sent hs lim other = cc

chain-options :
    (is_prod : Bool) (max_mb : ℕ) (new_id : String) (h : Context → Option ℕ) (m : Method)
    (up : Bool) (sent : String) (hs : List (String × String)) (lim : Option ℕ)
    → is_options m ≡ true
    → let c : Context = record {
      method = m;
      is_upload_path = up;
      sent_request_id = sent;
      headers = hs;
      body_limit = lim;
    } in
      let a = chain is_prod max_mb new_id h c in
      (header "X-Request-ID" a.headers ≡ some (id_of new_id c))
      × (a.status ≡ 204)
      × (header "X-Frame-Options" a.headers ≡ header "X-Frame-Options" hs)
unfolding chain recovery request_id cors_headers secure_headers limit_body handler set_header header
chain-options is_prod max_mb new_id h options up sent hs lim asks = (refl, refl, refl)
chain-options is_prod max_mb new_id h get up sent hs lim asks = cc
chain-options is_prod max_mb new_id h post up sent hs lim asks = cc
chain-options is_prod max_mb new_id h put up sent hs lim asks = cc
chain-options is_prod max_mb new_id h delete_method up sent hs lim asks = cc

recovery-status :
    (h : Context → Option ℕ) (seen : Context)
    → let a = recovery (handler h) seen in
      (a.headers ≡ seen.headers) × (((h seen ≡ none) × (a.status ≡ 500)) ⊎ (h seen ≡ some a.status))
unfolding recovery handler
recovery-status h seen = elim (Option-cases (h seen)) [
  | inl panics ↦ rw panics (refl, inl (refl, refl))
  | inr (status, writes) ↦ rw writes (refl, inr refl)
]

-- A request on which no header is set yet is answered, also if its handler panics, with the identifier that it
-- came with or else a new one; an OPTIONS request with 204 and without X-Frame-Options, every other one with
-- DENY in that header and with the status of its handler, or 500 after a panic.
pub chain_answers :
    (is_prod : Bool) (max_mb : ℕ) (new_id : String) (h : Context → Option ℕ) (c : Context)
    → c.headers ≡ []
    → let a = chain is_prod max_mb new_id h c in
      let seen = seen_by_handler is_prod max_mb new_id c in
      (header "X-Request-ID" a.headers ≡ some (id_of new_id c))
      × (((is_options c.method ≡ true)
            × (a.status ≡ 204)
            × (header "X-Frame-Options" a.headers ≡ none))
          ⊎ ((is_options c.method ≡ false)
              × (header "X-Frame-Options" a.headers ≡ some "DENY")
              × (((h seen ≡ none) × (a.status ≡ 500)) ⊎ (h seen ≡ some a.status))))
unfolding header
chain_answers is_prod max_mb new_id h c fresh = elim (Bool-cases (is_options c.method)) [
  | inl asks ↦
      let base =
        chain-options is_prod max_mb new_id h c.method c.is_upload_path c.sent_request_id c.headers
          c.body_limit asks in
      (base.0, inl (asks, base.1, base.2 ∙ ap (header "X-Frame-Options") fresh))
  | inr other ↦
      let same =
        chain-handler is_prod max_mb new_id h c.method c.is_upload_path c.sent_request_id c.headers
          c.body_limit other in
      let seen = seen_by_handler is_prod max_mb new_id c in
      let out = recovery-status h seen in
      subst
        (λ a.
          (header "X-Request-ID" a.headers ≡ some (id_of new_id c))
          × (((is_options c.method ≡ true)
                × (a.status ≡ 204)
                × (header "X-Frame-Options" a.headers ≡ none))
              ⊎ ((is_options c.method ≡ false)
                  × (header "X-Frame-Options" a.headers ≡ some "DENY")
                  × (((h seen ≡ none) × (a.status ≡ 500)) ⊎ (h seen ≡ some a.status)))))
        (sym same)
        (ap (header "X-Request-ID") out.0, inr (other, ap (header "X-Frame-Options") out.0, out.1))
]
