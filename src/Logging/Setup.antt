-- ===== src/Logging/Setup.antt =====
-- What holds of logging behind its set-up.
use Prim.Native.String.{String}
use bookie_cpp.Prelude.{
  ℕ, leb, subst, ◌≡◌, refl, sym, ap, ◌∙◌, inl, inr, List, Bool, true, false, Bool-cases,
  if◌then◌else◌,
}
use bookie_cpp.Logging.{
  Level, debug, info, warn, error, fatal, Attempt, came_back, exception, unknown, left, Log4cxx,
  pattern, and_then, set_up, caught, init_with, init, log,
}

-- A message of level info goes to a logger whose level is info or debug, and so on.
abbrev rank : Level → ℕ
rank debug = 0
rank info = 1
rank warn = 2
rank error = 3
rank fatal = 4

abbrev pub reaches : Level → Level → Bool
reaches message logger = leb (rank logger) (rank message)

-- log4cxx, as its documentation has it.
pub record Log4cxxLaws (log4 : Log4cxx) : Type 1 where
  pub is_configured-set_configured :
      (r : log4.Repository) → log4.is_configured (log4.set_configured true r) ≡ true
  pub is_configured-console_appender :
      (p : String) (r : log4.Repository)
      → log4.is_configured (left (log4.console_appender p r)) ≡ log4.is_configured r
  pub is_configured-set_root_level :
      (l : Level) (r : log4.Repository)
      → log4.is_configured (left (log4.set_root_level l r)) ≡ log4.is_configured r
  pub is_configured-add_root_appender :
      (a : log4.Appender) (r : log4.Repository)
      → log4.is_configured (left (log4.add_root_appender a r)) ≡ log4.is_configured r
  -- The logger of a name has no level of its own, and no other below the root's.
  pub Inherits : String → log4.Repository → Type 0
  pub Inherits-set_configured :
      (name : String) (b : Bool) (r : log4.Repository)
      → Inherits name r
      → Inherits name (log4.set_configured b r)
  pub Inherits-console_appender :
      (name p : String) (r : log4.Repository)
      → Inherits name r
      → Inherits name (left (log4.console_appender p r))
  pub is_enabled-set_root_level :
      (name : String) (l m : Level) (r r' : log4.Repository) (u : Unit {0})
      → Inherits name r
      → log4.set_root_level l r ≡ came_back r' u
      → log4.is_enabled name m r' ≡ reaches m l
  pub is_enabled-add_root_appender :
      (name : String) (m : Level) (a : log4.Appender) (r : log4.Repository)
      → log4.is_enabled name m (left (log4.add_root_appender a r)) ≡ log4.is_enabled name m r

left-and_then :
    {R A B : Type 0} (P : R → Type 0) (a : Attempt R A) (next : A → R → Attempt R B)
    → P (left a)
    → ((x : A) (r : R) → P r → P (left (next x r)))
    → P (left (and_then a next))
unfolding left and_then
left-and_then P (came_back r x) next start step = step x r start
left-and_then P (exception r what) next start step = start
left-and_then P (unknown r) next start step = start

and_then_inverse :
    {R A B : Type 0} (a : Attempt R A) (next : A → R → Attempt R B) (r' : R) (y : B)
    → and_then a next ≡ came_back r' y
    → (r : R) × (x : A) × (a ≡ came_back r x) × (next x r ≡ came_back r' y)
unfolding and_then
and_then_inverse (came_back r x) next r' y run = (r, x, refl, run)
and_then_inverse (exception r what) next r' y run = cc
and_then_inverse (unknown r) next r' y run = cc

module _ (log4 : Log4cxx) (laws : Log4cxxLaws log4) where
  open log4 use {
    Repository, is_configured, set_configured, console_appender, set_root_level, add_root_appender,
    is_enabled, forced_log,
  }

  left-caught :
      (path : String) (a : Attempt Repository (Unit {0})) (err : List (List String))
      → (caught log4 path a err).0 ≡ left a
  unfolding caught left
  left-caught path (came_back r u) err = refl
  left-caught path (exception r what) err = refl
  left-caught path (unknown r) err = refl

  abbrev IsConfigured : Repository → Type 0
  IsConfigured r = is_configured r ≡ true

  -- Whatever throws behind it, the flag is set.
  set_up-IsConfigured : (r : Repository) → IsConfigured (left (set_up log4 "" r))
  unfolding set_up left
  set_up-IsConfigured r = elim (Bool-cases (is_configured r)) [
    | inl there ↦ rw there there
    | inr fresh ↦ rw fresh (
        left-and_then IsConfigured (console_appender pattern (set_configured true r))
          (λ a r1. and_then (set_root_level info r1) (λ u r2. add_root_appender a r2))
          (laws.is_configured-console_appender pattern (set_configured true r)
            ∙ laws.is_configured-set_configured r)
          (λ a r1 its.
            left-and_then IsConfigured (set_root_level info r1) (λ u r2. add_root_appender a r2)
              (laws.is_configured-set_root_level info r1 ∙ its)
              (λ u r2 holds. laws.is_configured-add_root_appender a r2 ∙ holds)))
  ]

  init_again :
      (r : Repository) (err : List (List String)) → IsConfigured r → init log4 r err ≡ (r, err)
  unfolding init init_with set_up caught
  init_again r err there = rw there refl

  -- Logging::init comes back whatever log4cxx throws, and sets the repository's flag in any case: a second
  -- call changes nothing and prints nothing, also where the first has failed.
  pub init-init :
      (r : Repository) (err : List (List String))
      → IsConfigured (init log4 r err).0
        × (init log4 (init log4 r err).0 (init log4 r err).1 ≡ init log4 r err)
  unfolding init init_with
  init-init r err =
      let there : IsConfigured (init log4 r err).0 =
        ap is_configured (left-caught "" (set_up log4 "" r) err) ∙ set_up-IsConfigured r in
      (there, init_again (init log4 r err).0 (init log4 r err).1 there)

  set_up-is_enabled :
      (name : String) (l : Level) (r r' : Repository) (u : Unit {0})
      → is_configured r ≡ false
      → laws.Inherits name r
      → set_up log4 "" r ≡ came_back r' u
      → is_enabled name l r' ≡ reaches l info
  unfolding set_up left
  set_up-is_enabled name l r r' u fresh inherits run =
      let (r1, a, made, run1) =
        and_then_inverse (console_appender pattern (set_configured true r))
          (λ a r1. and_then (set_root_level info r1) (λ u r2. add_root_appender a r2)) r' u
          (rw fresh at run) in
      let (r2, v, levelled, run2) =
        and_then_inverse (set_root_level info r1) (λ u r2. add_root_appender a r2) r' u run1 in
      let still : laws.Inherits name r1 = subst (laws.Inherits name) (ap left made) (
        laws.Inherits-console_appender name pattern (set_configured true r)
          (laws.Inherits-set_configured name true r inherits)) in
      ap (is_enabled name l) (sym (ap left run2))
      ∙ laws.is_enabled-add_root_appender name l a r2
      ∙ laws.is_enabled-set_root_level name info l r1 r2 v still levelled

  -- Where Logging::init makes the set-up and nothing in it throws, a message at the level debug to a logger
  -- that has its level from the root is not even evaluated, and one at each other level is evaluated once
  -- and goes to the logger.
  pub log-init :
      {S : Type 0} (name : String) (l : Level) (message : S → String × S) (s : S)
      (r r' : Repository) (err : List (List String))
      → is_configured r ≡ false
      → laws.Inherits name r
      → set_up log4 "" r ≡ came_back r' tt
      → (init log4 r err ≡ (r', err))
        × (log log4 name l message s (init log4 r err).0 ≡ (
            if reaches l info
            then ((message s).1, forced_log name l (message s).0 r')
            else (s, r')))
  unfolding init init_with log caught
  log-init name l message s r r' err fresh inherits run =
      let here : init log4 r err ≡ (r', err) = rw run refl in
      (here, rw (run, set_up-is_enabled name l r r' tt fresh inherits run) refl)
