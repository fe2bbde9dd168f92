-- ===== src/Manager/Table.antt =====
-- An association list with the laws of the map that the manager uses.
use crab_rs.Prelude.{
  String, Option, none, some, List, [], ◌∷◌, ◌≡◌, refl, str_eq, eq_iff, arith, if◌then◌else◌,
}
use crab_rs.Manager.{DashMap}

module _ {V : Type 0} where
  unfoldable pub find : List (String × V) → String → Option V
  find [] k = none
  find ((j, v) ∷ m) k = if str_eq j k then some v else find m k

  pub without : List (String × V) → String → List (String × V)
  without [] k = []
  without ((j, v) ∷ m) k = let rest = without m k in if str_eq j k then rest else (j, v) ∷ rest

  pub find-without :
      (m : List (String × V)) (k j : String)
      → find (without m k) j ≡ (if str_eq k j then none else find m j)
  unfolding find without
  find-without [] k j = ground arith
  find-without ((i, v) ∷ m) k j =
      ground (arith, find-without m k j, eq_iff i k, eq_iff i j, eq_iff k j)

  pub find-nil : (k : String) → find [] k ≡ none
  unfolding find
  find-nil k = refl

  pub find-cons :
      (m : List (String × V)) (k j : String) (v : V)
      → find ((k, v) ∷ m) j ≡ (if str_eq k j then some v else find m j)
  unfolding find
  find-cons m k j v = refl

abbrev pub table : (V : Type 0) → DashMap V
table V = record {
  Map = List (String × V);
  empty = [];
  get = find;
  insert = λ m k v. (k, v) ∷ m;
  remove = without;
  get-empty = find-nil;
  get-insert = find-cons;
  get-remove = find-without;
}
