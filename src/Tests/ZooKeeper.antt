-- ===== src/Tests/ZooKeeper.antt =====
-- A C client whose handles are 0, 1, 2 and so on, and a bookie that registers with it.
use Prim.Native.String.{String}
use bookie_cpp.Prelude.{ℕ, ◌-◌, ◌^◌, ◌≡◌, refl, List, [], ◌∷◌, none, some, false}
use bookie_cpp.ZooKeeper.{Client, CClient, comes_back, handle_all}
use bookie_cpp.ZooKeeper.Sessions.{handle_all-hears}
use bookie_cpp.BookieRegistration.{construct, listener}
use bookie_cpp.BookieRegistration.Refusals.{Goes, construct-refused}
use bookie_cpp.BookieRegistration.Sessions.{node, listener-IsCallback, construct-registers}

abbrev pub zk : CClient
zk = record {
  zookeeper_init = λ n. some n;
  client_id = λ h. h;
  zoo_acreate = λ _ _ _. 0;
  connected_state = 3;
  expired_session_state = 2 ^ 32 - 112;
}

abbrev path : String
path = "/ledgers/available/10.0.0.1:3181"

abbrev none_yet : Client
none_yet = record {
  locked = false;
  handle = some 0;
  session = none;
  listeners = [];
  inits = 1;
  notified = [];
  created = [];
}

-- In session 4, with listeners 1 and 2.
abbrev in_session : Client
in_session = record none_yet { session = some 4; listeners = 1 ∷ 2 ∷ [] }

-- Connected twice in one session, which expires; connected in the next.
abbrev pub events : List (ℕ × ℕ)
events = (0, 3) ∷ (0, 3) ∷ (0, 2 ^ 32 - 112) ∷ (1, 3) ∷ []

handle_all-hears_example :
    (c' : Client) × (handle_all zk (listener zk path) events in_session ≡ comes_back c')
    × (c'.locked ≡ false)
    × (c'.listeners ≡ 1 ∷ 2 ∷ [])
    × (c'.notified ≡ 1 ∷ 2 ∷ [])
    × (c'.created ≡ (path, 1) ∷ (path, 1) ∷ [])
handle_all-hears_example =
    handle_all-hears zk (node zk path) (listener zk path) (listener-IsCallback zk path (λ h. refl))
      events in_session refl

construct-registers_example :
    (c1 : Client) × (c2 : Client) × (construct zk path 0 none_yet ≡ comes_back c1)
    × (handle_all zk (listener zk path) events c1 ≡ comes_back c2)
    × (c2.locked ≡ false)
    × (c2.created ≡ (path, 1) ∷ (path, 1) ∷ [])
construct-registers_example =
    construct-registers zk path 0 events none_yet (λ h. refl) refl refl refl

-- A C client for which a node cannot be created, with the code -110.
abbrev refusing : CClient
refusing = record zk { zoo_acreate = λ _ _ _. 2 ^ 32 - 110 }

construct-refused_example :
    (c1 : Client) × (construct refusing path 0 none_yet ≡ comes_back c1)
    × Goes refusing path 0 events [] c1
construct-refused_example =
    construct-refused refusing path (λ h same. cc) 0 events none_yet refl refl refl
