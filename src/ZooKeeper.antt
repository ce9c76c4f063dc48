-- ===== src/ZooKeeper.antt =====
-- src/ZooKeeper.h and src/ZooKeeper.cpp: the session with ZooKeeper, its listeners, and the creation of
-- nodes. An int is its bit pattern below 2 ^ 32. What a listener does is a parameter, and so are the C
-- client's functions and states; the calls of both are counted or listed in the state.
pub mod Errors
pub mod Sessions
pub mod Handles
pub mod Events
use Prim.Native.Nat.{bit_or}
use mathlib.Core.List.{foldl}
use bookie_cpp.Prelude.{
  ℕ, ◌+◌, List, [], ◌∷◌, ◌++◌, Option, none, some, Bool, true, false, ◌==◌, if◌then◌else◌,
}
use Prim.Native.String.{String}

-- The fields of a client, and what was asked of the C client and of the listeners: `created` lists the
-- creations that zoo_acreate has accepted, whose completions are still to come or have come.
pub record Client : Type 0 where
  pub locked : Bool
  pub handle : Option ℕ
  -- The value of the session promise, once it is fulfilled.
  pub session : Option ℕ
  pub listeners : List ℕ
  pub inits : ℕ
  pub notified : List ℕ
  pub created : List (String × ℕ)

-- The constructor.
abbrev pub new_client : Client
new_client = record {
  locked = false;
  handle = none;
  session = none;
  listeners = [];
  inits = 0;
  notified = [];
  created = [];
}

-- The destructor: the handles that it closes.
unfoldable pub close_client : Client → List ℕ
close_client c = elim c.handle [ none ↦ [] | some h ↦ h ∷ [] ]

-- A call that locks a mutex its own thread holds never comes back; neither does one in which the process
-- exits.
pub data Call (A : Type 0) : Type 0 where
  comes_back : A → Call A
  ended : ℕ → Call A
  deadlock : Call A

infixl 5 ◌>>=◌
abbrev pub ◌>>=◌ : {A B : Type 0} → Call A → (A → Call B) → Call B
comes_back a >>= k = k a
ended code >>= k = ended code
deadlock >>= k = deadlock

unfoldable pub lock : Client → Call Client
lock c = if c.locked then deadlock else comes_back (record c { locked = true })

abbrev pub unlock : Client → Client
unlock c = record c { locked = false }

-- The C client: the handle that the n-th zookeeper_init returns, if it is not null, the session id of a
-- handle, the result code of zoo_acreate, and the states that it reports.
pub record CClient : Type 0 where
  pub zookeeper_init : ℕ → Option ℕ
  pub client_id : ℕ → ℕ
  pub zoo_acreate : Option ℕ → String → ℕ → ℕ
  pub connected_state : ℕ
  pub expired_session_state : ℕ

-- The CreateFlag values.
abbrev pub ephemeral : ℕ
ephemeral = 0x01

abbrev pub sequence : ℕ
sequence = 0x02

-- The future of `create`: failed at once with a code, or pending until the C client calls back.
pub data Creation : Type 0 where
  failed : ℕ → Creation
  pending : Creation

module _ (zk : CClient) where
  unfoldable pub start_session : Client → Call Client
  unfolding lock
  start_session c = do
    c ← lock c
    comes_back (unlock (record c { handle = zk.zookeeper_init c.inits; inits = c.inits + 1 }))

  unfoldable pub combine_flags : List ℕ → ℕ
  combine_flags = foldl bit_or 0

  unfoldable pub create : String → List ℕ → Client → Call (Creation × Client)
  unfolding lock combine_flags
  create path create_flags c = do
    c ← lock c
    let flags = combine_flags create_flags
    let rc = zk.zoo_acreate c.handle path flags
    comes_back (
        if rc == 0
        then (pending, unlock (record c { created = c.created ++ (path, flags) ∷ [] }))
        else (failed rc, unlock c))

  -- The completion that zoo_acreate calls back: the value or the exception's code that the promise gets.
  unfoldable pub complete : ℕ → String → Option String
  complete rc path = if rc == 0 then some path else none

-- `callback` is what the listeners do.
module _ (zk : CClient) (callback : ℕ → Client → Call Client) where
  unfoldable pub notify : List ℕ → Client → Call Client
  notify [] c = comes_back c
  notify (l ∷ ls) c =
      callback l (record c { notified = c.notified ++ l ∷ [] }) >>= λ c'. notify ls c'

  -- The connected state, under the lock.
  unfoldable pub connected : ℕ → Client → Call Client
  unfolding notify
  connected zh c = elim c.session [
    | none ↦
        notify c.listeners
          (unlock (record c { handle = some zh; session = some (zk.client_id zh) }))
    | some id ↦ comes_back (unlock (record c { handle = some zh }))
  ]

  unfoldable pub handle_session_event : ℕ → ℕ → Client → Call Client
  unfolding lock connected start_session
  handle_session_event zh state c = do
    c ← lock c
    if state == zk.connected_state
        then connected zh c
        else if state == zk.expired_session_state
        then start_session zk (unlock (record c { session = none }))
        else comes_back (unlock c)

  -- A listener that registers while there is a session is called.
  unfoldable pub greet : Option ℕ → ℕ → Client → Call Client
  unfolding notify
  greet none l c = comes_back c
  greet (some id) l c = notify (l ∷ []) c

  unfoldable pub register_session_listener : ℕ → Client → Call Client
  unfolding lock greet
  register_session_listener l c = do
    c ← lock c
    greet c.session l (unlock (record c { listeners = c.listeners ++ l ∷ [] }))

  -- Watch events, one after the other: the handle and the state of each.
  unfoldable pub handle_all : List (ℕ × ℕ) → Client → Call Client
  unfolding handle_session_event
  handle_all [] c = comes_back c
  handle_all ((zh, state) ∷ events) c =
      handle_session_event zh state c >>= λ c'. handle_all events c'
