-- ===== src/Gateway/Responses.antt =====
-- What comes back from a request (affiliate-reconciliation-backend/app/main.py).
use affiliate_platform.Prelude.{true, false, ◌∷◌, ◌⊎◌, ◌≡◌}
use affiliate_platform.Gateway.{
  lookup, Bool, Buckets, some, List, Meta, ℕ, Incoming, Response, RateHeaders, Served, answered,
  validation_error, http_exception, unexpected, Gateway, id_of, none, String, Option, [],
}

abbrev pub rate_headers : Meta → RateHeaders
rate_headers m = record { limit = m.limit; remaining = m.remaining; reset = m.reset_epoch }

-- A response with this status code that carries the rate of the key and the id of the request.
pub record Carries (r : Incoming) (status : ℕ) (rate : RateHeaders) (p : Response) : Type 0 where
  pub status_code : p.status_code ≡ status
  pub rate_headers : p.rate ≡ some rate
  pub request_id : lookup "X-Request-ID" p.headers ≡ some (id_of r)
  pub no_sniff : lookup "X-Content-Type-Options" p.headers ≡ some "nosniff"

-- A response with this message, id of the request and details in its body.
abbrev pub HasBody : Option String → Option String → Option (List String) → Response → Type 0
HasBody message request_id details p =
    (p.message ≡ message) × (p.request_id ≡ request_id) × (p.details ≡ details)

-- What becomes of what the router did.
abbrev pub RepliesTo : Incoming → Meta → Served → Response → Type 0
RepliesTo r m (answered q) p =
    Carries r q.status_code (rate_headers m) p × HasBody q.message q.request_id q.details p
RepliesTo r m (validation_error errors) p =
    Carries r 422 (rate_headers m) p
    × HasBody (some "Request validation failed") (some (id_of r)) (some errors) p
RepliesTo r m (http_exception status detail) p =
    Carries r status (rate_headers m) p × HasBody (some detail) (some (id_of r)) none p
RepliesTo r m unexpected p =
    (p.status_code ≡ 500)
    × (p.rate ≡ none)
    × (p.headers ≡ [])
    × HasBody (some "Internal server error") (some (id_of r)) none p

abbrev pub ServeMeans :
    (List Incoming → Incoming → Served)
    → Gateway
    → Incoming
    → Buckets × Bool × Meta
    → Gateway × Response
    → Type 0
ServeMeans router g r (bs, allowed, m) (g', p) =
    (g'.buckets ≡ bs)
    × (((allowed ≡ false)
          × (g'.seen ≡ g.seen)
          × Carries r 429 (record { limit = m.limit; remaining = 0; reset = m.reset_epoch }) p)
        ⊎ ((allowed ≡ true) × (g'.seen ≡ (r ∷ g.seen)) × RepliesTo r m (router g.seen r) p))
