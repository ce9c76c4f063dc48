-- ===== src/PerfClient/Connections.antt =====
-- The connections of the load generator: their pipelines and their tasks.
use Prim.Native.String.{String}
use bookie_cpp.Prelude.{
  ℕ, zero, suc, ◌+◌, ◌*◌, ◌%◌, ◌^◌, ◌≤◌, ◌<◌, ◌≡◌, refl, sym, ap, subst, Bool, true, Bool-cases,
  ◌==◌, if◌then◌else◌, Option-cases, inl, inr, ◌⊎◌, List, [], ◌∷◌, map, Option, none, some, arith,
}
use bookie_cpp.Protocol.{max_frame_size}
use bookie_cpp.BookieHandler.Peers.{ContextCall, close}
use bookie_cpp.RateLimiter.{RateLimiter, Rates, create}
use bookie_cpp.Metrics.Services.{Histograms}
use bookie_cpp.PerfClient.{AddEntryTask, start}
use bookie_cpp.PerfClient.Sends.{from, IsTask, start-IsTask}
use bookie_cpp.RateLimiter.Bound.{IsLimiter}

pub record Arguments (rates : Rates) : Type 0 where
  pub bookie_address : String
  pub rate : rates.Rate
  pub msg_size : ℕ
  pub number_of_connections : ℕ
  pub stats_reporting_rate_seconds : ℕ
  pub format_stats_json : Bool

-- The handlers of a connection.
pub data Handler : Type 0 where
  async_socket client_codec add_entry_task : Handler
  frame_decoder : ℕ → ℕ → Handler

abbrev pub new_pipeline : List Handler
new_pipeline = async_socket ∷ frame_decoder 4 max_frame_size ∷ client_codec ∷ add_entry_task ∷ []

-- AddEntryTask::readEOF: what is printed, and what is asked of the context.
abbrev pub read_eof : String × ContextCall
read_eof = ("EOF received", close)

-- A rate below a million has a period of a microsecond at least, which is below 2 ^ 63 as nanoseconds.
abbrev pub Fits : (rates : Rates) → rates.Rate → Type 0
Fits rates rate =
    rates.below_million rate ≡ true
    → (0 < rates.period_micros rate) × (1000 * rates.period_micros rate < 2 ^ 63)

some_injective : {A : Type 0} {a b : A} → some a ≡ some b → a ≡ b
some_injective e = cc

module _ (Buf : Type 0) (wrap_buffer : List ℕ → Buf) (hs : Histograms) where
  -- The threads of connections that have become active, in the order in which they take a ledger id.
  unfoldable pub activate_all : ℕ → ℕ → RateLimiter → ℕ → ℕ → List (AddEntryTask Buf hs) × ℕ
  unfolding start
  activate_all zero generator rate_limiter msg_size metric = ([], generator)
  activate_all (suc n) generator rate_limiter msg_size metric =
      let (t, generator) = start Buf wrap_buffer hs generator rate_limiter msg_size metric in
      let (ts, generator) = activate_all n generator rate_limiter msg_size metric in
      (t ∷ ts, generator)

  -- The connections of the program, each with a limiter of its own for its part of the rate. `divide` is the
  -- division of a rate by an int; `none` is a limiter's failed assertion.
  unfoldable pub connect_all :
      (rates : Rates)
      → (rates.Rate → ℕ → rates.Rate)
      → Arguments rates
      → ℕ
      → Option (List (AddEntryTask Buf hs) × ℕ)
  unfolding activate_all
  connect_all rates divide args metric =
      if args.number_of_connections == 0
      then some ([], 0)
      else elim (create rates (divide args.rate args.number_of_connections)) [
        | none ↦ none
        | some limiter ↦
            some (activate_all args.number_of_connections 0 limiter args.msg_size metric)
      ]

  -- Each of the tasks is at its start, with a limiter in a good state.
  abbrev pub AreAtStart : List (AddEntryTask Buf hs) → Type 0
  AreAtStart [] = Unit {0}
  AreAtStart (t ∷ ts) = IsTask Buf wrap_buffer hs t [] 0 t × AreAtStart ts

  activate_ids :
      (n generator : ℕ) (limiter : RateLimiter) (msg_size metric : ℕ)
      → generator + n ≤ 2 ^ 64
      → map (λ t. t.ledger_id) (activate_all n generator limiter msg_size metric).0
        ≡ from generator n
  unfolding activate_all start
  activate_ids zero generator limiter msg_size metric fits = refl
  activate_ids (suc zero) generator limiter msg_size metric fits = refl
  activate_ids (suc (suc n)) generator limiter msg_size metric fits =
      let next : (generator + 1) % 2 ^ 64 ≡ suc generator = omega arith in
      ap (λ (ids : List ℕ). generator ∷ ids)
        (subst
          (λ (g : ℕ).
            map (λ t. t.ledger_id) (activate_all (suc n) g limiter msg_size metric).0
            ≡ from (suc generator) (suc n))
          (sym next) (activate_ids (suc n) (suc generator) limiter msg_size metric (omega arith)))

  activate_all-AreAtStart :
      (n generator : ℕ) (limiter : RateLimiter) (msg_size metric : ℕ)
      → IsLimiter limiter
      → AreAtStart (activate_all n generator limiter msg_size metric).0
  unfolding activate_all
  activate_all-AreAtStart zero generator limiter msg_size metric l = tt
  activate_all-AreAtStart (suc n) generator limiter msg_size metric l = (
    start-IsTask Buf wrap_buffer hs generator limiter msg_size metric l,
    activate_all-AreAtStart n _ limiter msg_size metric l,
  )

  create-IsLimiter :
      (rates : Rates) (rate : rates.Rate) (limiter : RateLimiter)
      → Fits rates rate
      → create rates rate ≡ some limiter
      → IsLimiter limiter
  unfolding create
  create-IsLimiter rates rate limiter ticks made = elim (Bool-cases (rates.below_million rate)) [
    | inl below ↦ subst IsLimiter (some_injective (rw below at made)) (record {
      ticks = omega (arith, (ticks below).0, (ticks below).1);
      forward = omega (arith, (ticks below).1);
      within = omega arith;
    })
    | inr above ↦ cc (rw above at made)
  ]

  -- If the period of a connection's part of the rate fits, then of at most 2 ^ 64 connections
  -- either none is made, because a limiter's assertion fails for their part of the rate, or all are made, for
  -- the ledgers 0, 1, 2 and so on, one each, and each at its start with a limiter in a good state.
  pub connect_all_lem :
      (rates : Rates) (divide : rates.Rate → ℕ → rates.Rate) (args : Arguments rates) (metric : ℕ)
      → Fits rates (divide args.rate args.number_of_connections)
      → args.number_of_connections ≤ 2 ^ 64
      → ((create rates (divide args.rate args.number_of_connections) ≡ none)
          × (connect_all rates divide args metric ≡ none))
        ⊎ ((ts : List (AddEntryTask Buf hs)) × (generator : ℕ) × (connect_all rates divide args
                metric
              ≡ some (ts, generator))
            × (map (λ t. t.ledger_id) ts ≡ from 0 args.number_of_connections)
            × AreAtStart ts)
  unfolding connect_all
  connect_all_lem rates divide args metric ticks fits =
      elim (Bool-cases (args.number_of_connections == 0)) [
        | inl nothing ↦
            let empty : args.number_of_connections ≡ 0 = ground arith in
            inr ([], 0, rw (connect_all, nothing), ap (from 0) (sym empty), tt)
        | inr several ↦
            elim (Option-cases (create rates (divide args.rate args.number_of_connections))) [
              | inl fails ↦ inl (fails, rw (several, connect_all, fails))
              | inr (limiter, made) ↦
                  let all =
                    activate_all args.number_of_connections 0 limiter args.msg_size metric in
                  inr (
                    all.0,
                    all.1,
                    rw (several, connect_all, made),
                    activate_ids args.number_of_connections 0 limiter args.msg_size metric
                        (omega arith),
                    activate_all-AreAtStart args.number_of_connections 0 limiter args.msg_size
                        metric (create-IsLimiter rates _ limiter ticks made),
                  )
            ]
      ]
