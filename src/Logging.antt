-- ===== src/Logging.antt =====
-- src/Logging.h and src/Logging.cpp: the set-up of log4cxx, and what the macros for a message do. log4cxx
-- is a parameter.
pub mod Setup
use Prim.Native.String.{String}
use text.Mathlib.Text.{◌==◌ as str_eq}
use bookie_cpp.Prelude.{List, [], ◌∷◌, ◌++◌, Bool, true, false, if◌then◌else◌}

-- The levels of the macros; log4cxx has more.
pub data Level : Type 0 where
  debug info warn error fatal : Level

-- How a call of log4cxx ends: with the repository as it is by then, or, with the result too, well; an
-- exception is a `std::exception` with its `what()`, or any other.
pub data Attempt (R A : Type 0) : Type 0 where
  came_back : R → A → Attempt R A
  exception : R → String → Attempt R A
  unknown : R → Attempt R A

-- `R` is the repository of loggers with their appenders.
pub record Log4cxx : Type 1 where
  pub Repository : Type 0
  pub Appender : Type 0
  pub is_configured : Repository → Bool
  pub set_configured : Bool → Repository → Repository
  -- A console appender with a layout for a pattern.
  pub console_appender : String → Repository → Attempt Repository Appender
  pub set_root_level : Level → Repository → Attempt Repository (Unit {0})
  pub add_root_appender : Appender → Repository → Attempt Repository (Unit {0})
  -- `PropertyConfigurator::configure` with a file.
  pub configure : String → Repository → Attempt Repository (Unit {0})
  -- Whether the logger of a name is enabled for a level, and a message to it.
  pub is_enabled : String → Level → Repository → Bool
  pub forced_log : String → Level → String → Repository → Repository

-- The repository that a call leaves.
unfoldable pub left : {R A : Type 0} → Attempt R A → R
left (came_back r a) = r
left (exception r what) = r
left (unknown r) = r

unfoldable pub and_then : {R A B : Type 0} → Attempt R A → (A → R → Attempt R B) → Attempt R B
and_then (came_back r a) next = next a r
and_then (exception r what) next = exception r what
and_then (unknown r) next = unknown r

abbrev pub pattern : String
pattern = "%d{HH:mm:ss.SSS} [%t] %-5p %l - %m%n"

module _ (log4 : Log4cxx) where
  open log4 use {
    Repository, is_configured, set_configured, console_appender, set_root_level, add_root_appender,
    configure, is_enabled, forced_log,
  }

  -- The body of the `try`.
  unfoldable pub set_up : String → Repository → Attempt Repository (Unit {0})
  unfolding and_then
  set_up path r =
      if str_eq path ""
      then (if is_configured r
          then came_back r tt
          else and_then (console_appender pattern (set_configured true r)) (λ appender r1.
            and_then (set_root_level info r1) (λ u r2. add_root_appender appender r2)))
      else configure path r

  -- The pieces of a line on the standard error stream, behind what is there.
  unfoldable pub caught :
      String → Attempt Repository (Unit {0}) → List (List String) → Repository × List (List String)
  caught path (came_back r u) err = (r, err)
  caught path (exception r what) err = (
    r,
    err ++ ("exception caught while configuring log4cpp via '" ∷ path ∷ "': " ∷ what ∷ []) ∷ [],
  )
  caught path (unknown r) err =
      (r, err ++ ("unknown exception while configuring log4cpp via '" ∷ path ∷ "'." ∷ []) ∷ [])

  -- Logging::init with a path.
  unfoldable pub init_with :
      String → Repository → List (List String) → Repository × List (List String)
  unfolding set_up caught
  init_with path r err = caught path (set_up path r) err

  unfoldable pub init : Repository → List (List String) → Repository × List (List String)
  unfolding init_with
  init r err = init_with "" r err

  -- LOG_DEBUG and the others: the message is an expression, evaluated in a state `S`, which it can change.
  unfoldable pub log :
      {S : Type 0} → String → Level → (S → String × S) → S → Repository → S × Repository
  log logger level message s r =
      if is_enabled logger level r
      then (let (line, s') = message s in (s', forced_log logger level line r))
      else (s, r)
