-- ===== src/Web/Limit.antt =====
-- backend/internal/middleware/ratelimit.go: `RateLimit`.
use seatsync.Prelude.{
  ℕ, ◌+◌, ◌*◌, ◌/◌, ◌≤◌, ◌<◌, ◌≡◌, refl, Bool, true, false, Option, none, some, ◌++◌, Text, codes,
  decimal, ltb, if◌then◌else◌, ℤ, pos, negsuc, arith, text_eq, Bool-cases, inl, inr,
}
use seatsync.Httpx.{ApiError, code_rate_limited, Details}
use seatsync.Locks.Uuids.{UuidCodec}
use seatsync.Services.World.{Fate, served}
use seatsync.RateLimit.Buckets.{BucketStore}
use seatsync.RateLimit.Script.{bucket_script}
use seatsync.RateLimit.Limiter.{
  Limit, Decision, Answer, allow, bucket_key, is_unlimited, run_script,
}
use seatsync.RateLimit.Refill.{Synced}
use seatsync.RateLimit.Retry.{retry_after-exact}
use seatsync.Web.Http.{Request, Headers, Response, Handler, write_error, set_header}
use seatsync.Web.Identity.{caller_key, scoped_key}

-- `strconv.Itoa`
abbrev pub itoa : ℤ → Text
itoa (pos n) = decimal n
itoa (negsuc n) = codes "-" ++ decimal (1 + n)

-- The whole seconds of the wait, at least one.
unfoldable pub retry_after_seconds : ℕ → ℕ
retry_after_seconds wait = let seconds = wait / 1000 in if ltb seconds 1 then 1 else seconds

abbrev pub too_many_requests : ℕ → ApiError
too_many_requests seconds = record {
  status = 429;
  code = code_rate_limited;
  message = codes "Too many requests. Please slow down and try again shortly.";
  details = Details.retry_after_seconds seconds;
}

abbrev pub limit_headers : Limit → Decision → Headers → Headers
limit_headers limit d hs =
    set_header (codes "X-RateLimit-Remaining") (decimal d.remaining)
      (set_header (codes "X-RateLimit-Limit") (itoa limit.burst) hs)

-- What surrounds one request: the fate of the script's run, the server's time and the caller's.
pub record Run : Type 0 where
  pub fate : Fate
  pub server : ℕ
  pub now : ℕ

module _ {ℓ} {S : Type 0} {Out : Type ℓ} (R : BucketStore) where
  -- The response to a request that the limiter refuses, and what an allowed one goes on to.
  abbrev pub after_decision :
      Limit
      → Decision
      → Headers
      → R.Store × S
      → (Headers → R.Store × S → Response Out × (R.Store × S))
      → Bool
      → Response Out × (R.Store × S)
  after_decision limit d hs s next true = next (limit_headers limit d hs) s
  after_decision limit d hs s next false =
      let seconds = retry_after_seconds d.retry_after in
      (
        write_error (set_header (codes "Retry-After") (decimal seconds) (limit_headers limit d hs))
            (too_many_requests seconds),
        s,
      )

  -- The store of the buckets stands beside the rest of the state. `none` is a limiter that is off.
  unfoldable pub rate_limit :
      UuidCodec
      → Bool
      → (Text → Option Text)
      → Option Run
      → Text
      → Limit
      → Handler (R.Store × S) Out
      → Handler (R.Store × S) Out
  rate_limit U trust split none scope limit next r hs s = next r hs s
  rate_limit U trust split (some run) scope limit next r hs (store, rest) =
      let (answer, store') =
        allow R run.fate run.server run.now (scoped_key scope (caller_key U trust split r)) limit
          store in
      after_decision limit answer.decision hs (store', rest) (next r) (answer.decision).allowed

false_of : (b : Bool) → (b ≡ true → ⊥) → b ≡ false
false_of true h = absurd (h refl)
false_of false h = refl

module _ (R : BucketStore) (U : UuidCodec) (trust : Bool) (split : Text → Option Text)
    (scope : Text) (limit : Limit) where
  -- The limiter's answer to a served run for the request.
  abbrev pub answer_to : ℕ → ℕ → Request → R.Store → Answer × R.Store
  answer_to server now r s =
      allow R served server now (scoped_key scope (caller_key U trust split r)) limit s

  -- A run leaves every hash but the caller's alone.
  hmget-answer_to :
      (server now t : ℕ) (k : Text) (r : Request) (s : R.Store)
      → text_eq k (bucket_key (scoped_key scope (caller_key U trust split r))) ≡ false
      → R.hmget t k (answer_to server now r s).1 ≡ R.hmget t k s
  unfolding allow run_script bucket_script
  hmget-answer_to server now t k r s h = elim (Bool-cases (is_unlimited limit)) [
    | inl e ↦ rw e refl
    | inr e ↦
        rw e (rw (R.hmget-expire_ne server t k _ _ _ h, R.hmget-hset_ne server t k _ _ _ s h) refl)
  ]

  wait-lt : (wait : ℕ) → wait < 1000 * (retry_after_seconds wait + 1)
  unfolding retry_after_seconds
  wait-lt wait = ground arith

  module _ {ℓ} {S : Type 0} {Out : Type ℓ} (next : Handler (R.Store × S) Out) where
    -- A request that a served run refuses is answered 429 with the seconds of the Retry-After
    -- header, changes no bucket but the caller's and does not reach the handler. If times do not go
    -- back, the clocks are within half a minute of the server's and no run is between, then the same
    -- caller's next request, if its run is served, is let through once a second more than that has
    -- passed, and refused before the limiter's own wait is over, which the header may fall short of
    -- by up to a second.
    pub rate_limit-retry :
        (server now server' now' : ℕ) (r : Request) (hs : Headers) (store : R.Store) (rest : S)
        → (answer_to server now r store).0.decision.allowed ≡ false
        → Synced server now
        → Synced server' now'
        → server ≤ server'
        → now ≤ now'
        → let first = answer_to server now r store in
          let wait = first.0.decision.retry_after in
          let seconds = retry_after_seconds wait in
          (rate_limit R U trust split
              (some (record { fate = served; server = server; now = now }))
              scope
              limit
              next
              r
              hs
              (store, rest)
            ≡ (
              write_error
                  (set_header
                    (codes "Retry-After")
                    (decimal seconds)
                    (limit_headers limit first.0.decision hs))
                  (too_many_requests seconds),
              (first.1, rest),
            ))
          × ((t : ℕ) (k : Text)
              → text_eq k (bucket_key (scoped_key scope (caller_key U trust split r))) ≡ false
              → R.hmget t k first.1 ≡ R.hmget t k store)
          × (now + 1000 * (seconds + 1) ≤ now'
              → (answer_to server' now' r first.1).0.decision.allowed ≡ true)
          × (now' < now + wait → (answer_to server' now' r first.1).0.decision.allowed ≡ false)
    unfolding rate_limit
    rate_limit-retry server now server' now' r hs store rest refused sync sync' le le' =
        let exact =
          retry_after-exact R (scoped_key scope (caller_key U trust split r)) limit server now
            server' now' store refused sync sync' le le' in
        let wait = (answer_to server now r store).0.decision.retry_after in
        (
          rw refused refl,
          λ t k other. hmget-answer_to server now t k r store other,
          λ later. exact.1 (omega (arith, wait-lt wait)),
          λ early. false_of _ (λ e. omega (arith, exact.0 e)),
        )
