-- ===== src/BookieRegistration.antt =====
-- src/BookieRegistration.h and src/BookieRegistration.cpp: the bookie's node in ZooKeeper, created anew
-- in each session.
pub mod Sessions
pub mod Refusals
use Prim.Native.String.{String}
use bookie_cpp.Prelude.{ℕ, List, [], ◌∷◌, Option, none, some}
use bookie_cpp.ZooKeeper.{
  Client, CClient, Call, Creation, comes_back, ended, failed, pending, create, complete, ephemeral,
  ◌>>=◌, register_session_listener,
}

-- What becomes of the process: it runs, it has reported its registration, or it has exited with 1.
pub data Process : Type 0 where
  running exited : Process
  registered : String → Process

-- The continuations of the creation's future: `onError` exits, and `then` reports a path that is not
-- empty.
unfoldable pub settle : Option String → Process
settle none = exited
settle (some String.[]) = running
settle (some (String.◌∷◌ c s)) = registered (String.◌∷◌ c s)

unfoldable pub settle_now : Creation → Process
unfolding settle
settle_now (failed rc) = settle none
settle_now pending = running

module _ (zk : CClient) (registration_path : String) where
  unfoldable pub register_bookie : Client → Call (Process × Client)
  unfolding settle_now create
  register_bookie c =
      create zk registration_path (ephemeral ∷ []) c >>= λ r. comes_back (settle_now r.0, r.1)

  -- The listener that the constructor registers.
  unfoldable pub handle_new_zookeeper_session : Client → Call (Process × Client)
  unfolding register_bookie
  handle_new_zookeeper_session c = register_bookie c

  -- The C client's answer to the creation.
  unfoldable pub registration_done : ℕ → Process
  unfolding settle complete
  registration_done rc = settle (complete zk rc registration_path)

  -- The answers to the creations that were accepted, as they come: the first that is an error exits.
  unfoldable pub settle_all : List ℕ → Process
  unfolding registration_done
  settle_all [] = running
  settle_all (rc ∷ rcs) = elim (registration_done rc) [
    | exited ↦ exited
    | running ↦ settle_all rcs
    | registered path ↦ settle_all rcs
  ]

  -- The same as one of the client's listeners.
  unfoldable pub listener : ℕ → Client → Call Client
  unfolding handle_new_zookeeper_session
  listener l c = handle_new_zookeeper_session c >>= λ r. elim r.0 [
    | exited ↦ ended 1
    | running ↦ comes_back r.1
    | registered path ↦ comes_back r.1
  ]

  -- The constructor, for the listener that becomes number `l`.
  unfoldable pub construct : ℕ → Client → Call Client
  unfolding register_session_listener
  construct l c = register_session_listener zk listener l c
