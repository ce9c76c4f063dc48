-- ===== src/ZooKeeper/Handles.antt =====
-- How many of ZooKeeper's handles are opened and closed.
use bookie_cpp.Prelude.{
  ℕ, ◌+◌, ◌≤◌, ◌≡◌, refl, ap, ◌∙◌, List, [], ◌∷◌, ◌++◌, subst, Option, none, some, ◌==◌,
  if◌then◌else◌, arith, inl, inr, length, Option-cases, Bool-cases,
}
use bookie_cpp.ZooKeeper.{
  Client, Call, CClient, comes_back, ended, deadlock, unlock, lock, notify, connected,
  start_session, handle_session_event, handle_all, close_client, ◌>>=◌, register_session_listener,
  greet,
}

-- How many handles an event opens.
abbrev pub opened_by : CClient → ℕ → ℕ
opened_by zk state =
    if state == zk.connected_state then 0 else if state == zk.expired_session_state then 1 else 0

-- The events that end a session.
abbrev pub expiries : CClient → List (ℕ × ℕ) → ℕ
expiries zk [] = 0
expiries zk ((zh, state) ∷ events) = opened_by zk state + expiries zk events

-- The destructor closes one handle at most.
pub length-close_client : (c : Client) → length (close_client c) ≤ 1
unfolding close_client
length-close_client c = elim (Option-cases c.handle) [
  | inl null ↦ rw null (omega arith)
  | inr (h, open_handle) ↦ rw open_handle (omega arith)
]

-- A call that comes back has opened handles up to the number `n`.
abbrev pub Opened : ℕ → Call Client → Type 0
Opened n (comes_back c) = c.inits ≡ n
Opened n (ended code) = Unit {0}
Opened n deadlock = Unit {0}

then_Opened :
    (n m : ℕ) (x : Call Client) (k : Client → Call Client)
    → Opened n x
    → ((c : Client) → c.inits ≡ n → Opened m (k c))
    → Opened m (x >>= k)
then_Opened n m (comes_back c) k o h = h c o
then_Opened n m (ended code) k o h = tt
then_Opened n m deadlock k o h = tt

lock-Opened : (c : Client) → Opened c.inits (lock c)
unfolding lock
lock-Opened c = elim (Bool-cases c.locked) [ inl held ↦ rw held tt | inr free ↦ rw free refl ]

pub start_session-Opened : (zk : CClient) (c : Client) → Opened (c.inits + 1) (start_session zk c)
unfolding start_session
start_session-Opened zk c =
    then_Opened c.inits (c.inits + 1) (lock c) _ (lock-Opened c) (λ c' same. ap (λ n. n + 1) same)

module _ (zk : CClient) (callback : ℕ → Client → Call Client)
    (opens_none : (l : ℕ) (c : Client) → Opened c.inits (callback l c)) where
  notify-Opened : (ls : List ℕ) (c : Client) → Opened c.inits (notify zk callback ls c)
  unfolding notify
  notify-Opened [] c = refl
  notify-Opened (l ∷ ls) c =
      then_Opened c.inits c.inits (callback l (record c { notified = c.notified ++ l ∷ [] })) _
        (opens_none l _)
        (λ c' same. subst (λ n. Opened n (notify zk callback ls c')) same (notify-Opened ls c'))

  connected-Opened : (zh : ℕ) (c : Client) → Opened c.inits (connected zk callback zh c)
  unfolding connected
  connected-Opened zh c = elim (Option-cases c.session) [
    | inl fresh ↦
        rw (fresh, connected)
          (notify-Opened c.listeners
            (unlock (record c { handle = some zh; session = some (zk.client_id zh) })))
    | inr (id, old) ↦ rw (old, connected) refl
  ]

  greet-Opened :
      (session : Option ℕ) (l : ℕ) (c : Client) → Opened c.inits (greet zk callback session l c)
  unfolding greet
  greet-Opened none l c = refl
  greet-Opened (some id) l c = notify-Opened (l ∷ []) c

  pub register-Opened :
      (l : ℕ) (c : Client) → Opened c.inits (register_session_listener zk callback l c)
  unfolding register_session_listener
  register-Opened l c = then_Opened c.inits c.inits (lock c) _ (lock-Opened c) (λ c' same.
      subst
        (λ n. Opened n (
          greet zk callback c'.session l
            (unlock (record c' { listeners = c'.listeners ++ l ∷ [] }))))
        same
        (greet-Opened c'.session l (unlock (record c' { listeners = c'.listeners ++ l ∷ [] }))))

  event-Opened :
      (zh state : ℕ) (c : Client)
      → Opened (c.inits + opened_by zk state) (handle_session_event zk callback zh state c)
  unfolding handle_session_event
  event-Opened zh state c =
      then_Opened c.inits (c.inits + opened_by zk state) (lock c) _ (lock-Opened c) (λ c' same.
        elim (Bool-cases (state == zk.connected_state)) [
          | inl up ↦ rw up (
              subst (λ n. Opened n (connected zk callback zh c')) (same ∙ omega arith)
                (connected-Opened zh c'))
          | inr down ↦ elim (Bool-cases (state == zk.expired_session_state)) [
            | inl expired ↦ rw (down, expired) (omega (arith, same))
            | inr other ↦ rw (down, other) (omega (arith, same))
          ]
        ])

  pub handle_all-Opened :
      (events : List (ℕ × ℕ)) (c : Client)
      → Opened (c.inits + expiries zk events) (handle_all zk callback events c)
  unfolding handle_all
  handle_all-Opened [] c = omega arith
  handle_all-Opened ((zh, state) ∷ events) c =
      then_Opened (c.inits + opened_by zk state) _ (handle_session_event zk callback zh state c) _
        (event-Opened zh state c)
        (λ c' opened.
          subst (λ n. Opened n (handle_all zk callback events c')) (omega arith)
            (handle_all-Opened events c'))
