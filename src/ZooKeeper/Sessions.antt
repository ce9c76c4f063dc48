-- ===== src/ZooKeeper/Sessions.antt =====
-- Sessions come and go: who is told, and that no call waits for itself.
use bookie_cpp.Prelude.{
  ℕ, ◌+◌, ◌≡◌, refl, sym, ap, ◌∙◌, List, [], ◌∷◌, ◌++◌, Option, none, some, Bool, true, false, ◌==◌,
  if◌then◌else◌, arith, inl, inr, Option-cases, Bool-cases,
}
use Prim.Native.String.{String}
use mathlib.Core.List.{append_assoc, append-nil}
use bookie_cpp.ZooKeeper.{
  Client, Call, CClient, comes_back, unlock, notify, connected, handle_session_event,
  register_session_listener, greet, handle_all,
}

-- What listeners leave as it was: the session, the listeners and who was told. They come back with the
-- mutex free, and have had the creations `made` accepted.
pub record Keeps (made : List (String × ℕ)) (c c' : Client) : Type 0 where
  pub created : c'.created ≡ c.created ++ made
  pub free : c'.locked ≡ false
  pub session : c'.session ≡ c.session
  pub listeners : c'.listeners ≡ c.listeners
  pub notified : c'.notified ≡ c.notified

-- `makes` gives the creations that are accepted of each listener.
abbrev pub IsCallback : (ℕ → List (String × ℕ)) → (ℕ → Client → Call Client) → Type 0
IsCallback makes callback =
    (l : ℕ) (c : Client)
    → c.locked ≡ false
    → (c' : Client) × (callback l c ≡ comes_back c') × Keeps (makes l) c c'

abbrev pub made_by : (ℕ → List (String × ℕ)) → List ℕ → List (String × ℕ)
made_by makes [] = []
made_by makes (l ∷ ls) = makes l ++ made_by makes ls

pub made_by-append :
    (makes : ℕ → List (String × ℕ)) (ls ms : List ℕ)
    → made_by makes (ls ++ ms) ≡ made_by makes ls ++ made_by makes ms
made_by-append makes [] ms = refl
made_by-append makes (l ∷ ls) ms =
    rw (made_by-append makes ls ms)
      (sym (append_assoc (makes l) (made_by makes ls) (made_by makes ms)))

abbrev pub is_some : Option ℕ → Bool
is_some none = false
is_some (some id) = true

-- Who is told of a state, and the session after it, from the promise's value alone.
abbrev pub told : CClient → ℕ → Option ℕ → List ℕ → List ℕ
told zk state none ls = if state == zk.connected_state then ls else []
told zk state (some id) ls = []

abbrev pub next_session : CClient → ℕ → ℕ → Option ℕ → Option ℕ
next_session zk zh state none = if state == zk.connected_state then some (zk.client_id zh) else none
next_session zk zh state (some id) =
    if state == zk.connected_state
    then some id
    else if state == zk.expired_session_state
    then none
    else some id

-- The listeners that hear of a list of events: all of them, once for each session that begins.
abbrev pub hears : CClient → Option ℕ → List ℕ → List (ℕ × ℕ) → List ℕ
hears zk session ls [] = []
hears zk session ls ((zh, state) ∷ events) =
    told zk state session ls ++ hears zk (next_session zk zh state session) ls events

module _ (zk : CClient) (makes : ℕ → List (String × ℕ)) (callback : ℕ → Client → Call Client)
    (behaves : IsCallback makes callback) where
  notify_lem :
      (ls : List ℕ) (c : Client)
      → c.locked ≡ false
      → (c' : Client) × (notify zk callback ls c ≡ comes_back c')
        × Keeps (made_by makes ls) (record c { notified = c.notified ++ ls }) c'
  unfolding notify
  notify_lem [] c free = (
    c,
    refl,
    record {
      created = sym (append-nil c.created);
      free = free;
      session = refl;
      listeners = refl;
      notified = sym (append-nil c.notified);
    },
  )
  notify_lem (l ∷ ls) c free =
      let (c1, run, k) = behaves l (record c { notified = c.notified ++ l ∷ [] }) free in
      let (c', rest, k') = notify_lem ls c1 k.free in
      (
        c',
        rw (run, notify) rest,
        record {
          created =
              k'.created
              ∙ ap (λ (xs : List (String × ℕ)). xs ++ made_by makes ls) k.created
              ∙ append_assoc c.created (makes l) (made_by makes ls);
          free = k'.free;
          session = k'.session ∙ k.session;
          listeners = k'.listeners ∙ k.listeners;
          notified =
              k'.notified
              ∙ ap (λ (xs : List ℕ). xs ++ ls) k.notified
              ∙ append_assoc c.notified (l ∷ []) ls;
        },
      )

  -- Nobody is told of a state that is not the connected one.
  quiet :
      (state : ℕ) (session : Option ℕ) (ls : List ℕ) (created : List (String × ℕ))
      → (state == zk.connected_state) ≡ false
      → created ≡ created ++ made_by makes (told zk state session ls)
  quiet state none ls created h = rw h (sym (append-nil created))
  quiet state (some id) ls created h = sym (append-nil created)

  -- A watch event is handled to its end, by a thread that does not wait for its own lock.
  event_lem :
      (zh state : ℕ) (c : Client)
      → c.locked ≡ false
      → (c' : Client) × (handle_session_event zk callback zh state c ≡ comes_back c')
        × (c'.locked ≡ false)
        × (c'.session ≡ next_session zk zh state c.session)
        × (c'.listeners ≡ c.listeners)
        × (c'.notified ≡ c.notified ++ told zk state c.session c.listeners)
        × (c'.created ≡ c.created ++ made_by makes (told zk state c.session c.listeners))
  unfolding handle_session_event
  event_lem zh state c free = elim (Bool-cases (state == zk.connected_state)) [
    | inl up ↦ elim (Option-cases c.session) [
      | inl fresh ↦
          let (c', run, k) =
            notify_lem c.listeners
              (unlock (record c { handle = some zh; session = some (zk.client_id zh) })) refl in
          (
            c',
            rw (free, up, fresh, connected) run,
            k.free,
            rw (fresh, up) k.session,
            k.listeners,
            rw (fresh, up) k.notified,
            rw (fresh, up) k.created,
          )
      | inr (id, old) ↦ (
        unlock (record c { handle = some zh }),
        simp (free, up, old, connected),
        refl,
        rw (old, up),
        refl,
        rw (old, append-nil),
        rw (old, append-nil),
      )
    ]
    | inr down ↦ elim (Bool-cases (state == zk.expired_session_state)) [
      | inl expired ↦ (
        record c {
          locked = false;
          session = none;
          handle = zk.zookeeper_init c.inits;
          inits = c.inits + 1;
        },
        rw (free, down, expired),
        refl,
        ground (arith, down, expired),
        refl,
        ground (arith, down, expired, append-nil c.notified),
        quiet state c.session c.listeners c.created down,
      )
      | inr other ↦ (
        unlock c,
        rw (free, down, other),
        refl,
        ground (arith, down, other),
        refl,
        ground (arith, down, other, append-nil c.notified),
        quiet state c.session c.listeners c.created down,
      )
    ]
  ]

  -- With listeners that come back, leave the mutex free and leave the session, the listeners and who was
  -- told as they are: whatever the watch events, a client whose mutex is free handles them all without
  -- locking itself out, and its listeners hear of each new session once, in the order in which they
  -- registered, and of nothing else.
  pub handle_all-hears :
      (events : List (ℕ × ℕ)) (c : Client)
      → c.locked ≡ false
      → (c' : Client) × (handle_all zk callback events c ≡ comes_back c')
        × (c'.locked ≡ false)
        × (c'.listeners ≡ c.listeners)
        × (c'.notified ≡ c.notified ++ hears zk c.session c.listeners events)
        × (c'.created ≡ c.created ++ made_by makes (hears zk c.session c.listeners events))
  unfolding handle_all
  handle_all-hears [] c free =
      (c, refl, free, refl, sym (append-nil c.notified), sym (append-nil c.created))
  handle_all-hears ((zh, state) ∷ events) c free =
      let (c1, run, free1, s, ls, heard, made) = event_lem zh state c free in
      let (c', rest, free', ls', heard', made') = handle_all-hears events c1 free1 in
      (
        c',
        rw (run, handle_all) rest,
        free',
        ls' ∙ ls,
        heard'
            ∙ rw (heard, s, ls)
                (append_assoc c.notified (told zk state c.session c.listeners)
                  (hears zk (next_session zk zh state c.session) c.listeners events)),
        made'
            ∙ rw (made, s, ls, made_by-append)
                (append_assoc c.created (made_by makes (told zk state c.session c.listeners)) (
                  made_by makes
                    (hears zk (next_session zk zh state c.session) c.listeners events))),
      )

  greet_lem :
      (session : Option ℕ) (l : ℕ) (c : Client)
      → c.locked ≡ false
      → (c' : Client) × (greet zk callback session l c ≡ comes_back c')
        × Keeps
            (made_by makes (if is_some session then l ∷ [] else []))
            (record c { notified = c.notified ++ (if is_some session then l ∷ [] else []) })
            c'
  unfolding greet
  greet_lem none l c free = (
    c,
    refl,
    record {
      created = sym (append-nil c.created);
      free = free;
      session = refl;
      listeners = refl;
      notified = sym (append-nil c.notified);
    },
  )
  greet_lem (some id) l c free = notify_lem (l ∷ []) c free

  -- With such listeners, one that registers while the mutex is free joins the others, and is told at once
  -- exactly when there is a session.
  pub register_session_listener_lem :
      (l : ℕ) (c : Client)
      → c.locked ≡ false
      → (c' : Client) × (register_session_listener zk callback l c ≡ comes_back c')
        × (c'.locked ≡ false)
        × (c'.session ≡ c.session)
        × (c'.listeners ≡ c.listeners ++ l ∷ [])
        × (c'.notified ≡ c.notified ++ (if is_some c.session then l ∷ [] else []))
        × (c'.created ≡ c.created ++ made_by makes (if is_some c.session then l ∷ [] else []))
  unfolding register_session_listener
  register_session_listener_lem l c free =
      let (c', run, k) =
        greet_lem c.session l (record c { locked = false; listeners = c.listeners ++ l ∷ [] })
          refl in
      (c', simp free run, k.free, k.session, k.listeners, k.notified, k.created)
