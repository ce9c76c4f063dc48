-- ===== src/BookieRegistration/Refusals.antt =====
-- The bookie's process exits at the first registration that ZooKeeper's client refuses.
use Prim.Native.String.{String}
use bookie_cpp.Prelude.{
  ℕ, ◌+◌, ◌≡◌, refl, ap, List, [], ◌∷◌, ◌++◌, Option, none, some, Bool, true, false, ◌==◌, inl, inr,
  ◌⊎◌, Bool-cases, arith, ◌||◌,
}
use bookie_cpp.ZooKeeper.{
  Client, CClient, comes_back, ended, handle_all, handle_session_event, register_session_listener,
  start_session,
}
use bookie_cpp.BookieRegistration.{construct, listener}

-- Some event says that the session is connected.
abbrev pub connects : CClient → List (ℕ × ℕ) → Bool
connects zk [] = false
connects zk ((zh, state) ∷ events) = state == zk.connected_state || connects zk events

module _ (zk : CClient) (path : String) where
  -- The two ends of the events.
  abbrev pub Goes : ℕ → List (ℕ × ℕ) → List (String × ℕ) → Client → Type 0
  Goes l events made c =
      ((connects zk events ≡ true) × (handle_all zk (listener zk path) events c ≡ ended 1))
      ⊎ ((connects zk events ≡ false)
          × (c' : Client) × (handle_all zk (listener zk path) events c ≡ comes_back c')
          × (c'.created ≡ made))

module _ (zk : CClient) (path : String)
    (refuses : (handle : Option ℕ) → ¬ zk.zoo_acreate handle path 1 ≡ 0) where
  no_code : (handle : Option ℕ) → (zk.zoo_acreate handle path 1 == 0) ≡ false
  no_code handle = ground (arith, refuses handle)

  -- A client without a session and with the registration as its listener.
  record IsWaiting (l : ℕ) (made : List (String × ℕ)) (c : Client) : Type 0 where
    free : c.locked ≡ false
    no_session : c.session ≡ none
    alone : c.listeners ≡ l ∷ []
    created : c.created ≡ made

  event-ends :
      (l zh state : ℕ) (made : List (String × ℕ)) (c : Client)
      → IsWaiting l made c
      → (state == zk.connected_state) ≡ true
      → handle_session_event zk (listener zk path) zh state c ≡ ended 1
  unfolding handle_session_event listener
  event-ends l zh state made c w up = rw (w.free, up, w.no_session, w.alone, no_code (some zh)) refl

  event-waits :
      (l zh state : ℕ) (made : List (String × ℕ)) (c : Client)
      → IsWaiting l made c
      → (state == zk.connected_state) ≡ false
      → (c' : Client) × (handle_session_event zk (listener zk path) zh state c ≡ comes_back c')
        × IsWaiting l made c'
  unfolding handle_session_event start_session
  event-waits l zh state made c w down = elim (Bool-cases (state == zk.expired_session_state)) [
    | inl expired ↦ (
      record c {
        locked = false;
        session = none;
        handle = zk.zookeeper_init c.inits;
        inits = c.inits + 1;
      },
      rw (w.free, down, expired) refl,
      record { free = refl; no_session = refl; alone = w.alone; created = w.created },
    )
    | inr other ↦ (
      record c { locked = false },
      rw (w.free, down, other) refl,
      record { free = refl; no_session = w.no_session; alone = w.alone; created = w.created },
    )
  ]

  waiting-Goes :
      (l : ℕ) (events : List (ℕ × ℕ)) (made : List (String × ℕ)) (c : Client)
      → IsWaiting l made c
      → Goes zk path l events made c
  unfolding handle_all
  waiting-Goes l [] made c w = inr (refl, c, refl, w.created)
  waiting-Goes l ((zh, state) ∷ events) made c w = elim (Bool-cases (state == zk.connected_state)) [
    | inl up ↦ inl (rw up refl, rw (event-ends l zh state made c w up, handle_all) refl)
    | inr down ↦
        let (c', run, w') = event-waits l zh state made c w down in
        elim (waiting-Goes l events made c' w') [
          | inl (some_connects, ends) ↦ inl (rw down some_connects, rw (run, handle_all) ends)
          | inr (none_connects, c2, comes, made2) ↦
              inr (rw down none_connects, c2, rw (run, handle_all) comes, made2)
        ]
  ]

  -- If zoo_acreate always refuses to create the bookie's ephemeral node, then from the constructor of the
  -- registration on, on a client with a free mutex, no session and no listeners: the process exits with 1 if
  -- one of the watch events says that a session is connected, and otherwise all of them are handled, and no
  -- creation of a node has been accepted.
  pub construct-refused :
      (l : ℕ) (events : List (ℕ × ℕ)) (c : Client)
      → c.locked ≡ false
      → c.session ≡ none
      → c.listeners ≡ []
      → (c1 : Client) × (construct zk path l c ≡ comes_back c1) × Goes zk path l events c.created c1
  unfolding construct register_session_listener
  construct-refused l events c free no_session nobody =
      let c1 : Client = record c { locked = false; listeners = c.listeners ++ l ∷ [] } in
      (
        c1,
        rw (free, no_session) refl,
        waiting-Goes l events c.created c1 (record {
          free = refl;
          no_session = no_session;
          alone = ap (λ (xs : List ℕ). xs ++ l ∷ []) nobody;
          created = refl;
        }),
      )
