-- ===== src/PerfClient/Sends.antt =====
-- Entry ids are used in order, one for each send, and every request that was written is pending.
use bookie_cpp.Prelude.{
  ℕ, zero, suc, ◌+◌, ◌%◌, ◌^◌, ◌≤◌, ◌<◌, ◌≡◌, refl, sym, ap, subst, ◌∙◌, List, [], ◌∷◌, ◌++◌, map,
  some, arith,
}
use mathlib.Core.List.{append_assoc, map-append}
use bookie_cpp.RateLimiter.{RateLimiter}
use bookie_cpp.RateLimiter.Bound.{IsLimiter, aquire_serves}
use bookie_cpp.Metrics.Services.{Histograms}
use bookie_cpp.Metrics.{Timer, start_timer}
use bookie_cpp.PerfClient.{
  AddEntryTask, Act, produces, transmits, start, produce, request_for, insert_pending, transmit,
  run_acts,
}

-- `n` numbers from `k` on.
abbrev pub from : ℕ → ℕ → List ℕ
from k zero = []
from k (suc n) = k ∷ from (suc k) n

from-last : (k n : ℕ) → from k n ++ (k + n) ∷ [] ≡ from k (suc n)
from-last k zero = ap (λ (m : ℕ). m ∷ []) (omega arith)
from-last k (suc n) =
    ap (λ (m : ℕ). k ∷ (from (suc k) n ++ m ∷ [])) (omega arith)
    ∙ ap (λ (l : List ℕ). k ∷ l) (from-last (suc k) n)

abbrev pub AreBelow : ℕ → List ℕ → Type 0
AreBelow e [] = Unit {0}
AreBelow e (x ∷ xs) = (x < e) × AreBelow e xs

-- In a list that counts up, what stands before a number is below it.
front_below : (k n e : ℕ) (xs ys : List ℕ) → xs ++ e ∷ ys ≡ from k n → AreBelow e xs × (k ≤ e)
front_below k zero e [] ys h = cc
front_below k zero e (x ∷ xs) ys h = cc
front_below k (suc n) e [] ys h = (tt, ground (arith, h))
front_below k (suc n) e (x ∷ xs) ys h =
    let first : x ≡ k = cc in
    let (below, bound) = front_below (suc k) n e xs ys (cc) in
    ((omega (arith, first), below), omega arith)

abbrev pub key : {hs : Histograms} → ℕ × Timer hs → ℕ
key p = p.0

-- The turns of the thread among what happens.
abbrev pub produced : List Act → ℕ
produced [] = 0
produced (produces now ∷ acts) = suc (produced acts)
produced (transmits now ∷ acts) = produced acts

-- Timers that the metric has started.
abbrev pub AreStarted : (hs : Histograms) → ℕ → List (ℕ × Timer hs) → Type 0
AreStarted hs p [] = Unit {0}
AreStarted hs p ((i, timer) ∷ rest) = (timer.metric ≡ some p) × AreStarted hs p rest

AreStarted-append :
    (hs : Histograms) (p : ℕ) (pending : List (ℕ × Timer hs)) (id : ℕ) (timer : Timer hs)
    → AreStarted hs p pending
    → timer.metric ≡ some p
    → AreStarted hs p (pending ++ (id, timer) ∷ [])
AreStarted-append hs p [] id timer a e = (e, tt)
AreStarted-append hs p ((i, w) ∷ rest) id timer (a, as') e =
    (a, AreStarted-append hs p rest id timer as' e)

module _ (Buf : Type 0) (wrap_buffer : List ℕ → Buf) (hs : Histograms) where
  insert_pending-new :
      (id : ℕ) (timer : Timer hs) (pending : List (ℕ × Timer hs))
      → AreBelow id (map key pending)
      → insert_pending Buf wrap_buffer hs id timer pending ≡ pending ++ (id, timer) ∷ []
  unfolding insert_pending
  insert_pending-new id timer [] b = refl
  insert_pending-new id timer ((i, w) ∷ rest) (b, bs) =
      ground (arith, insert_pending-new id timer rest bs)

  -- `sent` are the entries whose requests were written, and `n` ids have been given out.
  pub record IsTask (first : AddEntryTask Buf hs) (sent : List ℕ) (n : ℕ) (t : AddEntryTask Buf hs)
      : Type 0 where
    pub limiter : IsLimiter t.rate_limiter
    pub ids : sent ++ t.posted ≡ from 0 n
    pub generator : t.entry_id_generator ≡ n
    pub pending : map key t.pending_requests ≡ sent
    pub timed : AreStarted hs t.metric t.pending_requests
    pub wrote : t.written ≡ map (request_for Buf wrap_buffer hs first) sent
    pub same_ledger : t.ledger_id ≡ first.ledger_id
    pub same_payload : t.payload ≡ first.payload
    pub same_metric : t.metric ≡ first.metric

  pub start-IsTask :
      (generator : ℕ) (limiter : RateLimiter) (msg_size metric : ℕ)
      → IsLimiter limiter
      → IsTask
          (start Buf wrap_buffer hs generator limiter msg_size metric).0
          []
          0
          (start Buf wrap_buffer hs generator limiter msg_size metric).0
  unfolding start
  start-IsTask generator limiter msg_size metric l = record {
    limiter = l;
    ids = refl;
    generator = refl;
    pending = refl;
    timed = tt;
    wrote = refl;
    same_ledger = refl;
    same_payload = refl;
    same_metric = refl;
  }

  produce-IsTask :
      (now : ℕ) (first : AddEntryTask Buf hs) (sent : List ℕ) (n : ℕ) (t : AddEntryTask Buf hs)
      → IsTask first sent n t
      → suc n < 2 ^ 64
      → (t' : AddEntryTask Buf hs) × (produce Buf wrap_buffer hs now t ≡ some t')
        × IsTask first sent (suc n) t'
  unfolding produce
  produce-IsTask now first sent n t i small =
      let (wait, r, run, l) = aquire_serves 1 now t.rate_limiter i.limiter in
      (
        record t {
          rate_limiter = r;
          entry_id_generator = (t.entry_id_generator + 1) % 2 ^ 64;
          posted = t.posted ++ t.entry_id_generator ∷ [];
        },
        rw run,
        record {
          limiter = l;
          ids =
              sym (append_assoc sent t.posted (t.entry_id_generator ∷ []))
              ∙ ap (λ (l : List ℕ). l ++ t.entry_id_generator ∷ []) i.ids
              ∙ ap (λ (m : ℕ). from 0 n ++ m ∷ []) (omega (arith, i.generator))
              ∙ from-last 0 n;
          generator = omega (arith, i.generator);
          pending = i.pending;
          timed = i.timed;
          wrote = i.wrote;
          same_ledger = i.same_ledger;
          same_payload = i.same_payload;
          same_metric = i.same_metric;
        },
      )

  same_request :
      (first t : AddEntryTask Buf hs) (id : ℕ)
      → t.ledger_id ≡ first.ledger_id
      → t.payload ≡ first.payload
      → request_for Buf wrap_buffer hs t id ≡ request_for Buf wrap_buffer hs first id
  unfolding request_for
  same_request first t id l p = cc

  transmit-IsTask :
      (now : ℕ) (first : AddEntryTask Buf hs) (sent posted : List ℕ) (n : ℕ)
      (t : AddEntryTask Buf hs)
      → IsTask first sent n t
      → t.posted ≡ posted
      → (sent' : List ℕ) × IsTask first sent' n (transmit Buf wrap_buffer hs now t)
  unfolding transmit start_timer
  transmit-IsTask now first sent [] n t i e = (sent, simp (e, transmit) i)
  transmit-IsTask now first sent (id ∷ rest) n t i e =
      let ids : sent ++ id ∷ rest ≡ from 0 n = ap (λ (l : List ℕ). sent ++ l) (sym e) ∙ i.ids in
      let (below, _) = front_below 0 n id sent rest ids in
      let t' : AddEntryTask Buf hs = record t { posted = rest } in
      let timer : Timer hs = start_timer hs t.metric now in
      let inserted = insert_pending-new id timer t.pending_requests (rw i.pending below) in
      (
        sent ++ id ∷ [],
        simp (e, transmit)
            (record {
              limiter = i.limiter;
              ids = append_assoc sent (id ∷ []) rest ∙ ids;
              generator = i.generator;
              pending =
                  ap (map key) inserted
                  ∙ map-append key t.pending_requests ((id, timer) ∷ [])
                  ∙ ap (λ (l : List ℕ). l ++ id ∷ []) i.pending;
              timed =
                  rw inserted
                    (AreStarted-append hs t.metric t.pending_requests id timer i.timed refl);
              wrote =
                  rw (i.wrote, same_request first t' id i.same_ledger i.same_payload)
                    (sym (map-append (request_for Buf wrap_buffer hs first) sent (id ∷ [])));
              same_ledger = i.same_ledger;
              same_payload = i.same_payload;
              same_metric = i.same_metric;
            }),
      )

  acts_lem :
      (acts : List Act) (first : AddEntryTask Buf hs) (sent : List ℕ) (n : ℕ)
      (t : AddEntryTask Buf hs)
      → IsTask first sent n t
      → n + produced acts < 2 ^ 64
      → (t' : AddEntryTask Buf hs) × (sent' : List ℕ) × (run_acts Buf wrap_buffer hs acts t
          ≡ some t')
        × IsTask first sent' (n + produced acts) t'
  unfolding run_acts
  acts_lem [] first sent n t i small =
      (t, sent, refl, subst (λ (m : ℕ). IsTask first sent m t) (omega arith) i)
  acts_lem (produces now ∷ acts) first sent n t i small =
      let (t1, run, i1) = produce-IsTask now first sent n t i (omega arith) in
      let (t', sent', rest, i') = acts_lem acts first sent (suc n) t1 i1 (omega arith) in
      (
        t',
        sent',
        rw (run, run_acts) rest,
        subst (λ (m : ℕ). IsTask first sent' m t') (omega arith) i',
      )
  acts_lem (transmits now ∷ acts) first sent n t i small =
      let (sent1, i1) = transmit-IsTask now first sent t.posted n t i refl in
      acts_lem acts first sent1 n (transmit Buf wrap_buffer hs now t) i1 small

  -- From its start with a limiter in a good state and until it reads an answer, through fewer than 2 ^ 64
  -- turns of its thread, with the sends of the event loop between them in any way, a connection never
  -- fails: the requests written, with those still posted, are for the entries 0, 1, 2 and so on, one for
  -- each turn of the thread, in order; each written one is for the ledger and the payload of the start,
  -- and exactly the written ones are pending.
  pub acts_send_in_order :
      (acts : List Act) (generator : ℕ) (limiter : RateLimiter) (msg_size metric : ℕ)
      → IsLimiter limiter
      → produced acts < 2 ^ 64
      → (t' : AddEntryTask Buf hs) × (sent : List ℕ) × (run_acts Buf wrap_buffer hs acts
            (start Buf wrap_buffer hs generator limiter msg_size metric).0
          ≡ some t')
        × IsTask
            (start Buf wrap_buffer hs generator limiter msg_size metric).0
            sent
            (produced acts)
            t'
  acts_send_in_order acts generator limiter msg_size metric l small =
      let first = (start Buf wrap_buffer hs generator limiter msg_size metric).0 in
      let (t', sent, run, i) =
        acts_lem acts first [] 0 first (start-IsTask generator limiter msg_size metric l)
          (omega arith) in
      (t', sent, run, subst (λ (m : ℕ). IsTask first sent m t') (omega arith) i)
