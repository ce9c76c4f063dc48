-- ===== src/RateLimiter/Bound.antt =====
-- What a rate limiter lets through.
use Prim.Native.Nat.{min}
use bookie_cpp.Prelude.{
  ◌%◌, ◌^◌, ◌==◌, false, sym, ℕ, ◌+◌, ◌-◌, ◌*◌, ◌/◌, ◌≤◌, ◌<◌, ◌≡◌, refl, ap, ◌∙◌, subst, true,
  some, ltb, List, [], ◌∷◌, arith, inl, inr, Bool-cases,
}
use bookie_cpp.RateLimiter.{earlier, between, RateLimiter, refill, spend, aquire, aquire_all}

-- Stored permits stay below the maximum, and the interval is a positive duration.
pub record IsLimiter (r : RateLimiter) : Type 0 where
  pub ticks : 0 < r.interval
  pub forward : r.interval < 2 ^ 63
  pub within : r.stored_permits ≤ r.max_permits

times_le : (a b i : ℕ) → a ≤ b → a * i ≤ b * i
times_le a b i h = grind arith

whole_intervals : (d i : ℕ) → 0 < i → d / i * i ≤ d
whole_intervals d i h = grind arith

credit_bound :
    (most s now next i : ℕ)
    → 0 < i
    → next < now
    → min most (s + (now - next) / i) * i + next ≤ s * i + now
credit_bound most s now next i h late =
    let gain = (now - next) / i in
    let less : min most (s + gain) * i ≤ (s + gain) * i =
      times_le (min most (s + gain)) (s + gain) i (omega arith) in
    omega (arith, less, whole_intervals (now - next) i h)

earlier-ltb : (a b : ℕ) → a < 2 ^ 63 → b < 2 ^ 63 → earlier a b ≡ ltb a b
unfolding earlier
earlier-ltb a b ha hb =
    let shift : (x : ℕ) → x < 2 ^ 63 → (x + 2 ^ 63) % 2 ^ 64 ≡ x + 2 ^ 63 =
      λ x h. omega (arith, h) in
    rw (shift a ha, shift b hb) (ground arith)

between_lem : (a b : ℕ) → a ≤ b → b < 2 ^ 63 → between a b ≡ b - a
between_lem a b h fits = omega (arith, h, fits)

-- Within 63 bits, a refill credits no more permits than intervals have passed.
refill_credit :
    (now i until : ℕ) (r : RateLimiter)
    → IsLimiter r
    → r.interval ≡ i
    → r.next_free ≤ until
    → now ≤ until
    → until < 2 ^ 63
    → (r' : RateLimiter) × (refill now r ≡ some r')
      × IsLimiter r'
      × (r'.interval ≡ i)
      × (r'.max_permits ≡ r.max_permits)
      × (now ≤ r'.next_free)
      × (r'.next_free ≤ until)
      × (r.next_free ≤ r'.next_free)
      × (r'.stored_permits * i + r.next_free ≤ r.stored_permits * i + r'.next_free)
unfolding refill
refill_credit now i until r v e next_in now_in fits =
    let order = earlier-ltb r.next_free now (omega arith) (omega arith) in
    elim (Bool-cases (earlier r.next_free now)) [
      | inr late ↦
          let later : ltb r.next_free now ≡ false = sym order ∙ late in
          (r, rw late refl, v, e, refl, ground arith, next_in, omega arith, omega arith)
      | inl early ↦
          let sooner : ltb r.next_free now ≡ true = sym order ∙ early in
          let gain = (now - r.next_free) / r.interval in
          let passed : between r.next_free now ≡ now - r.next_free =
            between_lem r.next_free now (ground arith) (omega arith) in
          let ticking : (r.interval == 0) ≡ false = ground (arith, v.ticks) in
          (
            record r {
              stored_permits = min r.max_permits (r.stored_permits + gain);
              next_free = now;
            },
            rw (early, ticking, passed) refl,
            record { ticks = v.ticks; forward = v.forward; within = omega arith },
            e,
            refl,
            omega arith,
            now_in,
            ground arith,
            subst
                (λ (t : ℕ).
                  min r.max_permits (r.stored_permits + gain) * t + r.next_free
                  ≤ r.stored_permits * t + now)
                e
                (credit_bound r.max_permits r.stored_permits now r.next_free r.interval v.ticks
                  (ground arith)),
          )
    ]

-- Every permit is paid for, by a stored one or by an interval `i`.
spend_pays :
    (permits now i until : ℕ) (r : RateLimiter)
    → r.interval ≡ i
    → r.next_free ≤ until
    → until + permits * i < 2 ^ 63
    → (permits * i + (spend permits now r).1.stored_permits * i + r.next_free
        ≡ r.stored_permits * i + (spend permits now r).1.next_free)
      × ((spend permits now r).1.next_free ≤ until + permits * i)
unfolding spend
spend_pays permits now i until r e next_in fits =
    let stored = min permits r.stored_permits in
    let swap : permits + (r.stored_permits - stored) ≡ r.stored_permits + (permits - stored) =
      omega arith in
    let cost : (permits - stored) * r.interval ≡ (permits - stored) * i =
      ap (λ (t : ℕ). (permits - stored) * t) e in
    let few : (permits - stored) * i ≤ permits * i =
      times_le (permits - stored) permits i (omega arith) in
    let exact : (r.next_free + (permits - stored) * r.interval) % 2 ^ 64
        ≡ r.next_free + (permits - stored) * i =
      omega (arith, cost, few, next_in, fits) in
    (omega (arith, exact, ap (λ (t : ℕ). t * i) swap), omega (arith, exact, few, next_in))

spend_keeps : (permits now : ℕ) (r : RateLimiter) → IsLimiter r → IsLimiter (spend permits now r).1
unfolding spend
spend_keeps permits now r v = record { ticks = v.ticks; forward = v.forward; within = omega arith }

-- One call, at whatever time: it is served, and leaves a limiter in a good state.
pub aquire_serves :
    (permits now : ℕ) (r : RateLimiter)
    → IsLimiter r
    → (wait : ℕ) × (r' : RateLimiter) × (aquire permits now r ≡ some (wait, r')) × IsLimiter r'
unfolding aquire refill
aquire_serves permits now r v =
    let ticking : (r.interval == 0) ≡ false = ground (arith, v.ticks) in
    elim (Bool-cases (earlier r.next_free now)) [
      | inr late ↦ (
        (spend permits now r).0,
        (spend permits now r).1,
        rw (late, aquire) refl,
        spend_keeps permits now r v,
      )
      | inl early ↦
          let q : RateLimiter = record r {
            stored_permits =
                min r.max_permits (r.stored_permits + between r.next_free now / r.interval);
            next_free = now;
          } in
          (
            (spend permits now q).0,
            (spend permits now q).1,
            rw (early, ticking, aquire) refl,
            spend_keeps permits now q
                (record { ticks = v.ticks; forward = v.forward; within = omega arith }),
          )
    ]

-- One call, within 63 bits: it is served, it sleeps until the time that was free before, and what it takes
-- is paid for.
aquire_pays :
    (permits now i until : ℕ) (r : RateLimiter)
    → IsLimiter r
    → r.interval ≡ i
    → r.next_free ≤ until
    → now ≤ until
    → until + permits * i < 2 ^ 63
    → (wait : ℕ) × (r' : RateLimiter) × (aquire permits now r ≡ some (wait, r'))
      × IsLimiter r'
      × (r'.interval ≡ i)
      × (r'.max_permits ≡ r.max_permits)
      × (r'.next_free ≤ until + permits * i)
      × (r.next_free ≤ now + wait)
      × (permits * i + r'.stored_permits * i + r.next_free ≤ r.stored_permits * i + r'.next_free)
unfolding aquire spend
aquire_pays permits now i until r v e next_in now_in fits =
    let (q, run, w, same, most, ahead, q_in, after, credit) =
      refill_credit now i until r v e next_in now_in (omega arith) in
    let (paid, r_in) = spend_pays permits now i until q same q_in fits in
    let sleeps : between now q.next_free ≡ q.next_free - now =
      between_lem now q.next_free ahead (omega arith) in
    (
      (spend permits now q).0,
      (spend permits now q).1,
      rw (run, aquire),
      spend_keeps permits now q w,
      same,
      most,
      r_in,
      omega (arith, sleeps, ahead, after),
      omega (arith, paid, credit),
    )

-- The permits of a list of calls.
abbrev pub total : List (ℕ × ℕ) → ℕ
total [] = 0
total ((permits, now) ∷ calls) = permits + total calls

-- No call is later than `last`.
abbrev pub AreUntil : ℕ → List (ℕ × ℕ) → Type 0
AreUntil last [] = Unit {0}
AreUntil last ((permits, now) ∷ calls) = (now ≤ last) × AreUntil last calls

total-cons_times :
    (permits now i : ℕ) (calls : List (ℕ × ℕ))
    → total ((permits, now) ∷ calls) * i ≡ permits * i + total calls * i
total-cons_times permits now i calls = omega arith

aquire_all_pays :
    (calls : List (ℕ × ℕ)) (i last until : ℕ) (r : RateLimiter)
    → IsLimiter r
    → r.interval ≡ i
    → r.next_free ≤ until
    → last ≤ until
    → AreUntil last calls
    → until + total calls * i < 2 ^ 63
    → (r' : RateLimiter) × (aquire_all calls r ≡ some r')
      × IsLimiter r'
      × (r'.interval ≡ i)
      × (r'.max_permits ≡ r.max_permits)
      × (r'.next_free ≤ until + total calls * i)
      × (total calls * i + r'.stored_permits * i + r.next_free
          ≤ r.stored_permits * i + r'.next_free)
unfolding aquire_all
aquire_all_pays [] i last until r v e next_in last_in times fits =
    (r, refl, v, e, refl, omega arith, omega arith)
aquire_all_pays ((permits, now) ∷ calls) i last until r v e next_in last_in (now_in, times) fits =
    let sum = total-cons_times permits now i calls in
    let (wait, q, run, w, same, most, q_in, _, paid) =
      aquire_pays permits now i until r v e next_in (omega arith) (omega (arith, sum)) in
    let (r', run', w', same', most', r_in, paid') =
      aquire_all_pays calls i last (until + permits * i) q w same q_in (omega arith) times
        (omega (arith, sum)) in
    (
      r',
      rw (run, aquire_all) run',
      w',
      same',
      most' ∙ most,
      omega (arith, r_in, sum),
      omega (arith, paid, paid', sum),
    )

-- No limiter in a good state fails, and it keeps its rate, as long as no time that is reckoned with
-- passes 2 ^ 63 nanoseconds: where the calls' times and `next_free` are at most `last`, and `last` with
-- an interval for each permit asked for stays below. Whoever is served next leaves `aquire` at `now +
-- wait`; up to then the earlier callers have been given at most one permit for each interval since
-- `next_free`, besides the permits that a full store holds.
pub aquire_rate :
    (calls : List (ℕ × ℕ)) (permits now last : ℕ) (r : RateLimiter)
    → IsLimiter r
    → r.next_free ≤ last
    → AreUntil last calls
    → now ≤ last
    → last + total calls * r.interval + permits * r.interval < 2 ^ 63
    → (r1 : RateLimiter) × (wait : ℕ) × (r2 : RateLimiter) × (aquire_all calls r ≡ some r1)
      × (aquire permits now r1 ≡ some (wait, r2))
      × IsLimiter r2
      × (total calls * r.interval + r.next_free ≤ r.max_permits * r.interval + (now + wait))
aquire_rate calls permits now last r v next_in times now_in fits =
    let (r1, run, w, same, most, r_in, paid) =
      aquire_all_pays calls r.interval last last r v refl next_in (omega arith) times
        (omega arith) in
    let (wait, r2, run', w', _, _, _, sleeps, _) =
      aquire_pays permits now r.interval (last + total calls * r.interval) r1 w same r_in
        (omega arith) (omega arith) in
    (
      r1,
      wait,
      r2,
      run,
      run',
      w',
      omega (arith, paid, sleeps, times_le r.stored_permits r.max_permits r.interval v.within),
    )
