-- ===== src/Api/RequestLog.antt =====
-- What the middlewares zapLogger and recovery of backend/api/routes.go log of a request: of the
-- fields of a line, the method, the status and the identifier.
use distributed_benchmark_pl.Base.{
  ℕ, String, Bool, true, false, Option, none, some, List, [], ◌∷◌, ◌++◌, leb, if◌then◌else◌, ◌≡◌,
  ◌⊎◌, refl, ap, ◌∙◌, Bool-cases, inl, inr, Option-cases,
}
use distributed_benchmark_pl.Api.{Method, get, post, put, delete_method, options}
use distributed_benchmark_pl.Api.Middleware.{
  Context, Answer, Next, recovery, request_id, cors_headers, secure_headers, limit_body, handler,
  chain, chain_answers, set_header, header, id_of, is_options, seen_by_handler,
}

pub data LogLevel : Type 0 where
  info warning error : LogLevel

pub data LogLine : Type 0 where
  panic_recovered : Method → LogLine
  request : LogLevel → Method → ℕ → String → LogLine

-- The level of a request's line.
unfoldable pub level_for : ℕ → LogLevel
level_for status = if leb 500 status then error else if leb 400 status then warning else info

-- The line that recovery writes before it answers with 500.
unfoldable pub recovery_log : Next → Context → List LogLine
recovery_log next c = elim (next c).0 [ none ↦ panic_recovered c.method ∷ [] | some status ↦ [] ]

-- The rest of the chain and then the line of the request. GetHeader reads the header that the
-- request came with.
unfoldable pub zap_logger : Answer × List LogLine → Context → Answer × List LogLine
zap_logger (a, lines) c =
    (a, lines ++ request (level_for a.status) c.method a.status c.sent_request_id ∷ [])

unfoldable pub logged_chain :
    Bool → ℕ → String → (Context → Option ℕ) → Context → Answer × List LogLine
logged_chain is_prod max_mb new_id h c =
    let next =
      request_id new_id (cors_headers is_prod (secure_headers (limit_body max_mb (handler h)))) in
    zap_logger (recovery next c, recovery_log next c) c

-- The middlewares inside of recovery.
abbrev inner : Bool → ℕ → String → (Context → Option ℕ) → Next
inner is_prod max_mb new_id h =
    request_id new_id (cors_headers is_prod (secure_headers (limit_body max_mb (handler h))))

module _ (is_prod : Bool) (max_mb : ℕ) (new_id : String) (h : Context → Option ℕ) where
  inner-handler :
      (m : Method) (up : Bool) (sent : String) (hs : List (String × String)) (lim : Option ℕ)
      → is_options m ≡ false
      → let c : Context = record {
        method = m;
        is_upload_path = up;
        sent_request_id = sent;
        headers = hs;
        body_limit = lim;
      } in
        let seen = seen_by_handler is_prod max_mb new_id c in
        inner is_prod max_mb new_id h c ≡ (h seen, seen.headers)
  unfolding request_id cors_headers secure_headers limit_body handler set_header
  inner-handler get true sent hs lim other = refl
  inner-handler get false sent hs lim other = refl
  inner-handler post true sent hs lim other = refl
  inner-handler post false sent hs lim other = refl
  inner-handler put true sent hs lim other = refl
  inner-handler put false sent hs lim other = refl
  inner-handler delete_method true sent hs lim other = refl
  inner-handler delete_method false sent hs lim other = refl
  inner-handler options up sent hs lim other = cc

  inner-options :
      (m : Method) (up : Bool) (sent : String) (hs : List (String × String)) (lim : Option ℕ)
      → is_options m ≡ true
      → let c : Context = record {
        method = m;
        is_upload_path = up;
        sent_request_id = sent;
        headers = hs;
        body_limit = lim;
      } in
        (inner is_prod max_mb new_id h c).0 ≡ some 204
  unfolding request_id cors_headers secure_headers limit_body handler set_header
  inner-options options up sent hs lim asks = refl
  inner-options get up sent hs lim asks = cc
  inner-options post up sent hs lim asks = cc
  inner-options put up sent hs lim asks = cc
  inner-options delete_method up sent hs lim asks = cc

-- The answer and the lines, when what is inside of recovery panics, and when it writes a status.
zap_logger-panics :
    (next : Next) (c : Context) (hs : List (String × String))
    → next c ≡ (none, hs)
    → zap_logger (recovery next c, recovery_log next c) c ≡ (
      record { status = 500; headers = hs },
      panic_recovered c.method ∷ request error c.method 500 c.sent_request_id ∷ [],
    )
unfolding zap_logger recovery recovery_log level_for
zap_logger-panics next c hs panics =
    ap
      (λ (out : Option ℕ × List (String × String)).
        zap_logger (recovery (λ d. out) c, recovery_log (λ d. out) c) c)
      panics

zap_logger-writes :
    (next : Next) (c : Context) (status : ℕ) (hs : List (String × String))
    → next c ≡ (some status, hs)
    → zap_logger (recovery next c, recovery_log next c) c ≡ (
      record { status = status; headers = hs },
      request (level_for status) c.method status c.sent_request_id ∷ [],
    )
unfolding zap_logger recovery recovery_log
zap_logger-writes next c status hs writes =
    ap
      (λ (out : Option ℕ × List (String × String)).
        zap_logger (recovery (λ d. out) c, recovery_log (λ d. out) c) c)
      writes

-- The headers of SecureHeaders, as a response has them.
abbrev pub Secured : List (String × String) → Type 0
Secured hs =
    (header "X-Frame-Options" hs ≡ some "DENY")
    × (header "X-Content-Type-Options" hs ≡ some "nosniff")
    × (header "Referrer-Policy" hs ≡ some "strict-origin-when-cross-origin")

-- What a request that is not OPTIONS gets and leaves in the log, by what its handler does.
abbrev pub Handled : Context → Option ℕ → Answer × List LogLine → Type 0
Handled c none (a, lines) =
    (a.status ≡ 500)
    × (lines ≡ panic_recovered c.method ∷ request error c.method 500 c.sent_request_id ∷ [])
Handled c (some status) (a, lines) =
    (a.status ≡ status)
    × (lines ≡ request (level_for status) c.method status c.sent_request_id ∷ [])

-- The headers of the answer to an OPTIONS request.
logged_chain-options :
    (is_prod : Bool) (max_mb : ℕ) (new_id : String) (h : Context → Option ℕ) (c : Context)
    → c.headers ≡ []
    → is_options c.method ≡ true
    → let a = (logged_chain is_prod max_mb new_id h c).0 in
      (header "X-Request-ID" a.headers ≡ some (id_of new_id c))
      × (header "X-Frame-Options" a.headers ≡ none)
unfolding logged_chain zap_logger chain
logged_chain-options is_prod max_mb new_id h c fresh asks =
    let answers = chain_answers is_prod max_mb new_id h c fresh in
    elim answers.1 [
      | inl (asked, status, frame) ↦ (answers.0, frame)
      | inr (other, frame, handled) ↦ cc
    ]

-- A request on which no header is set yet gets the identifier that it came with, or else a new one. An
-- OPTIONS request is answered with 204, without X-Frame-Options, and leaves one line. Every other one
-- gets the three headers of the secure middleware; if its handler panics, it is answered with 500 and
-- leaves the line of the panic and then one at the level of an error, and if its handler writes a
-- status, it is answered with this and leaves one line at the level of the status. The lines have the
-- identifier that the request came with, which is empty if the answer has a new one.
pub logged_chain_answers :
    (is_prod : Bool) (max_mb : ℕ) (new_id : String) (h : Context → Option ℕ) (c : Context)
    → c.headers ≡ []
    → let r = logged_chain is_prod max_mb new_id h c in
      (header "X-Request-ID" r.0.headers ≡ some (id_of new_id c))
      × (((is_options c.method ≡ true)
            × (r.0.status ≡ 204)
            × (header "X-Frame-Options" r.0.headers ≡ none)
            × (r.1 ≡ request info c.method 204 c.sent_request_id ∷ []))
          ⊎ ((is_options c.method ≡ false)
              × Secured r.0.headers
              × Handled c (h (seen_by_handler is_prod max_mb new_id c)) r))
unfolding logged_chain header level_for
logged_chain_answers is_prod max_mb new_id h c fresh =
    let next = inner is_prod max_mb new_id h in
    elim (Bool-cases (is_options c.method)) [
      | inl asks ↦
          let answers = logged_chain-options is_prod max_mb new_id h c fresh asks in
          let early =
            inner-options is_prod max_mb new_id h c.method c.is_upload_path c.sent_request_id
              c.headers c.body_limit asks in
          let line = zap_logger-writes next c 204 (next c).1 (ap (λ s. (s, (next c).1)) early) in
          (answers.0, inl (asks, ap (λ r. r.0.status) line, answers.1, ap (λ r. r.1) line))
      | inr other ↦
          let seen = seen_by_handler is_prod max_mb new_id c in
          let same =
            inner-handler is_prod max_mb new_id h c.method c.is_upload_path c.sent_request_id
              c.headers c.body_limit other in
          elim (Option-cases (h seen)) [
            | inl panics ↦
                let out =
                  zap_logger-panics next c seen.headers
                    (same ∙ ap (λ s. (s, seen.headers)) panics) in
                rw (out, panics) (refl, inr (other, (refl, refl, refl), (refl, refl)))
            | inr (status, writes) ↦
                let out =
                  zap_logger-writes next c status seen.headers
                    (same ∙ ap (λ s. (s, seen.headers)) writes) in
                rw (out, writes) (refl, inr (other, (refl, refl, refl), (refl, refl)))
          ]
    ]
