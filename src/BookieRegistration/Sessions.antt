-- ===== src/BookieRegistration/Sessions.antt =====
-- The bookie registers itself in every session.
use Prim.Native.String.{String}
use bookie_cpp.Prelude.{
  ℕ, ◌≡◌, refl, ◌∙◌, ap, List, [], ◌∷◌, ◌++◌, false, none, some, Option, Bool, true, ◌==◌, ◌&&◌,
  if◌then◌else◌, inl, inr, Bool-cases,
}
use mathlib.Core.List.{append-nil}
use bookie_cpp.ZooKeeper.{Client, CClient, comes_back, handle_all}
use bookie_cpp.ZooKeeper.Sessions.{
  IsCallback, hears, made_by, handle_all-hears, register_session_listener_lem,
}
use bookie_cpp.BookieRegistration.{
  Process, running, exited, registered, settle, settle_all, construct, listener,
}

-- No answer is an error.
abbrev pub all_ok : List ℕ → Bool
all_ok [] = true
all_ok (rc ∷ rcs) = rc == 0 && all_ok rcs

settle-goes_on :
    (path : String) (next : Process)
    → elim (settle (some path)) [ exited ↦ exited | running ↦ next | registered at ↦ next ] ≡ next
unfolding settle
settle-goes_on String.[] next = refl
settle-goes_on (String.◌∷◌ c s) next = refl

-- The process goes on behind the answers to its registrations, if none of them is an error.
pub settle_all_lem :
    (zk : CClient) (path : String) (answers : List ℕ)
    → settle_all zk path answers ≡ (if all_ok answers then running else exited)
unfolding settle_all
settle_all_lem zk path [] = refl
settle_all_lem zk path (rc ∷ rcs) = elim (Bool-cases (rc == 0)) [
  | inr error ↦ rw (error, settle_all, settle) refl
  | inl well ↦
      rw (well, settle_all)
        (settle-goes_on path (settle_all zk path rcs) ∙ settle_all_lem zk path rcs)
]

module _ (zk : CClient) (path : String) where
  -- The creation that a registration asks for: of an ephemeral node at the bookie's path.
  abbrev pub node : ℕ → List (String × ℕ)
  node l = (path, 1) ∷ []

  -- zoo_acreate accepts to create the node.
  abbrev pub Accepts : Type 0
  Accepts = (handle : Option ℕ) → zk.zoo_acreate handle path 1 ≡ 0

  pub listener-IsCallback : Accepts → IsCallback node (listener zk path)
  unfolding listener
  listener-IsCallback accepts l c free = (
    record c { locked = false; created = c.created ++ (path, 1) ∷ [] },
    rw (free, accepts c.handle) refl,
    record { created = refl; free = refl; session = refl; listeners = refl; notified = refl },
  )

  -- If zoo_acreate always accepts to create the bookie's ephemeral node, then from its constructor on, on
  -- a client with a free mutex, no session and no listeners, through any watch events that come while no
  -- creation has been answered by an error, which exits the process, the bookie asks for the creation of
  -- this node once in each session that begins, and for nothing else; no step waits for a lock that its
  -- own thread holds.
  pub construct-registers :
      (l : ℕ) (events : List (ℕ × ℕ)) (c : Client)
      → Accepts
      → c.locked ≡ false
      → c.session ≡ none
      → c.listeners ≡ []
      → (c1 : Client) × (c2 : Client) × (construct zk path l c ≡ comes_back c1)
        × (handle_all zk (listener zk path) events c1 ≡ comes_back c2)
        × (c2.locked ≡ false)
        × (c2.created ≡ c.created ++ made_by node (hears zk none (l ∷ []) events))
  unfolding construct
  construct-registers l events c accepts free no_session nobody =
      let (c1, run, free1, s, ls, _, made) =
        register_session_listener_lem zk node (listener zk path) (listener-IsCallback accepts) l c
          free in
      let (c2, run2, free2, _, _, made2) =
        handle_all-hears zk node (listener zk path) (listener-IsCallback accepts) events c1 free1 in
      let s' : c1.session ≡ none = s ∙ no_session in
      let ls' : c1.listeners ≡ l ∷ [] = ls ∙ ap (λ (xs : List ℕ). xs ++ l ∷ []) nobody in
      let made' : c1.created ≡ c.created = made ∙ rw no_session (append-nil c.created) in
      (c1, c2, run, run2, free2, made2 ∙ rw (s', ls', made'))
