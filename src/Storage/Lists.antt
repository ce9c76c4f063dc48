-- ===== src/Storage/Lists.antt =====
-- A queue, a batch and a database as lists: the laws of `Deps` can be met. The queue has room for 4
-- entries, and the disk is healthy, or every write fails.
use bookie_cpp.Prelude.{
  ℕ, ◌≤◌, ◌<◌, ◌≡◌, refl, List, [], ◌∷◌, ◌++◌, Option, none, some, Bool, true, false, length, arith,
  ltb, if◌then◌else◌,
}
use bookie_cpp.Prelude.Bytes.{to_be}
use bookie_cpp.Storage.Services.{Deps, DepsLaws}

abbrev read_list : {E : Type 0} → List E → Option (E × List E)
read_list [] = none
read_list (e ∷ es) = some (e, es)

abbrev write_list : {E : Type 0} → E → List E → Option (List E)
write_list e es = if ltb (length es) 4 then some (es ++ e ∷ []) else none

pub write_list_room :
    {E : Type 0} (e : E) (es : List E) → length es < 4 → write_list e es ≡ some (es ++ e ∷ [])
write_list_room e es h = ground arith

pub write_list_full : {E : Type 0} (e : E) (es : List E) → 4 ≤ length es → write_list e es ≡ none
write_list_full e es h = ground arith

abbrev pub list_deps : Bool → (E : Type 0) → Deps E
list_deps healthy E = record {
  Queue = List E;
  read = read_list;
  write = write_list;
  Batch = List (List ℕ × List ℕ);
  Db = List (List ℕ × List ℕ);
  put = λ k v b. b ++ (k, v) ∷ [];
  clear = λ b. [];
  write_db = λ s b d. (healthy, if healthy then d ++ b else d);
  big = λ v. v;
  object_bytes = to_be 8;
}

pub read_list-nil : {E : Type 0} (q : List E) → q ≡ [] → read_list q ≡ none
read_list-nil q h = rw h

pub read_list-cons :
    {E : Type 0} (q : List E) (e : E) (es : List E)
    → q ≡ e ∷ es
    → (r : List E) × (read_list q ≡ some (e, r)) × (r ≡ es)
read_list-cons q e es h = (es, rw h, refl)

pub healthy_write :
    (healthy : Bool) (b d : List (List ℕ × List ℕ))
    → healthy ≡ true
    → (if healthy then d ++ b else d) ≡ d ++ b
healthy_write healthy b d h = rw h

pub failed_write :
    (healthy : Bool) (b d : List (List ℕ × List ℕ))
    → healthy ≡ false
    → (if healthy then d ++ b else d) ≡ d
failed_write healthy b d h = rw h

abbrev pub list_deps_laws : (healthy : Bool) (E : Type 0) → DepsLaws E (list_deps healthy E)
list_deps_laws healthy E = record {
  capacity = 4;
  contents = λ q. q;
  read-nil = read_list-nil;
  read-cons = read_list-cons;
  write_room = λ e q h. (q ++ e ∷ [], write_list_room e q h, refl);
  write_full = write_list_full;
  puts = λ b. b;
  puts-put = λ k v b. refl;
  puts-clear = λ b. refl;
  log = λ d. d;
  log-write_db = λ s b d h. healthy_write healthy b d h;
  log-write_db_failed = λ s b d h. failed_write healthy b d h;
  object_bytes-big = λ v. refl;
}
