-- ===== src/Tests/Logging.antt =====
-- A small log4cxx, whose console may throw.
use Prim.Native.String.{String}
use bookie_cpp.Prelude.{
  ℕ, ◌≡◌, refl, sym, ap, List, [], ◌∷◌, ◌++◌, Bool, true, false, if◌then◌else◌, suc,
}
use bookie_cpp.Logging.{
  Level, debug, info, error, Attempt, came_back, exception, left, Log4cxx, set_up, init, log,
}
use bookie_cpp.Logging.Setup.{Log4cxxLaws, reaches, init-init, log-init}

-- All loggers have the root's level.
record Repository : Type 0 where
  configured : Bool
  level : Level
  appenders : List String
  lines : List String

abbrev console : Bool → String → Repository → Attempt Repository String
console broken p r = if broken then exception r "no console" else came_back r p

abbrev log4 : Bool → Log4cxx
log4 broken = record {
  Repository = Repository;
  Appender = String;
  is_configured = λ r. r.configured;
  set_configured = λ b r. record r { configured = b };
  console_appender = console broken;
  set_root_level = λ l r. came_back (record r { level = l }) tt;
  add_root_appender = λ a r. came_back (record r { appenders = r.appenders ++ a ∷ [] }) tt;
  configure = λ path r. exception r "no file";
  is_enabled = λ name l r. reaches l r.level;
  forced_log = λ name l line r. record r { lines = r.lines ++ line ∷ [] };
}

console-left : (broken : Bool) (p : String) (r : Repository) → left (console broken p r) ≡ r
unfolding left
console-left true p r = refl
console-left false p r = refl

abbrev well : Repository → Attempt Repository (Unit {0})
well r = came_back r tt

-- A call that comes back leaves the repository that it comes back with.
left_configured : (r : Repository) → (left (well r)).configured ≡ r.configured
unfolding left
left_configured r = refl

left_level : (m : Level) (r : Repository) → reaches m (left (well r)).level ≡ reaches m r.level
unfolding left
left_level m r = refl

-- The level of the repository that a call leaves.
abbrev level_left : Level → Attempt Repository (Unit {0}) → Level
level_left l (came_back r u) = r.level
level_left l _ = l

abbrev log4_laws : (broken : Bool) → Log4cxxLaws (log4 broken)
log4_laws broken = record {
  is_configured-set_configured = λ r. refl;
  is_configured-console_appender =
      λ p r. ap (λ (x : Repository). x.configured) (console-left broken p r);
  is_configured-set_root_level = λ l r. left_configured (record r { level = l });
  is_configured-add_root_appender =
      λ a r. left_configured (record r { appenders = r.appenders ++ a ∷ [] });
  Inherits = λ name r. Unit {0};
  Inherits-set_configured = λ name b r i. i;
  Inherits-console_appender = λ name p r i. i;
  is_enabled-set_root_level =
      λ name l m r r' u i run. ap (λ (x : Level). reaches m x) (sym (ap (level_left m) run));
  is_enabled-add_root_appender =
      λ name m a r. left_level m (record r { appenders = r.appenders ++ a ∷ [] });
}

abbrev fresh : Repository
fresh = record { configured = false; level = debug; appenders = []; lines = [] }

-- The first call fails.
init-init_example :
    ((init (log4 true) fresh []).0.configured ≡ true)
    × (init (log4 true) (init (log4 true) fresh []).0 (init (log4 true) fresh []).1
        ≡ init (log4 true) fresh [])
init-init_example = init-init (log4 true) (log4_laws true) fresh []

abbrev ready : Repository
ready = record {
  configured = true;
  level = info;
  appenders = "%d{HH:mm:ss.SSS} [%t] %-5p %l - %m%n" ∷ [];
  lines = [];
}

set_up_run : set_up (log4 false) "" fresh ≡ came_back ready tt
unfolding set_up
set_up_run = refl

-- The message counts how often it is evaluated.
abbrev counted : ℕ → String × ℕ
counted n = ("Bookie address: localhost", suc n)

log-init_example :
    (init (log4 false) fresh [] ≡ (ready, []))
    × (log (log4 false) "bookie" error counted 0 (init (log4 false) fresh []).0
        ≡ (1, record ready { lines = "Bookie address: localhost" ∷ [] }))
log-init_example =
    log-init (log4 false) (log4_laws false) "bookie" error counted 0 fresh ready [] refl tt
      set_up_run
