-- ===== src/Manager/Laws.antt =====
-- What a lookup sees after each change of the table.
use crab_rs.Prelude.{
  String, true, none, some, ◌≡◌, ◌≢◌, ◌↔◌, ◌||◌, ◌&&◌, not, str_eq, arith, if◌then◌else◌,
}
use crab_rs.Manager.{DashMap, Node, Manager, insert, remove, get, exists}

module _ {Handle Info : Type 0} (d : DashMap (Node Handle Info)) where
  pub get-insert :
      (k j : String) (h : Handle) (i : Info) (m : Manager d)
      → get d j (insert d k h i m) ≡ (if str_eq k j then some (h, i) else get d j m)
  unfolding get insert
  get-insert k j h i m = rw d.get-insert (ground arith)

  pub get-remove :
      (k j : String) (m : Manager d)
      → get d j (remove d k m) ≡ (if str_eq k j then none else get d j m)
  unfolding get remove
  get-remove k j m = rw d.get-remove (ground arith)

  pub exists-insert :
      (k j : String) (h : Handle) (i : Info) (m : Manager d)
      → exists d j (insert d k h i m) ≡ (str_eq k j || exists d j m)
  unfolding exists insert
  exists-insert k j h i m = rw d.get-insert (ground arith)

  pub exists-remove :
      (k j : String) (m : Manager d)
      → exists d j (remove d k m) ≡ (not (str_eq k j) && exists d j m)
  unfolding exists remove
  exists-remove k j m = rw d.get-remove (ground arith)

  -- A node exists in the table just if a lookup of it gives something.
  pub exists-get : (k : String) (m : Manager d) → (exists d k m ≡ true) ↔ (get d k m ≢ none)
  unfolding exists get
  exists-get k m = ground arith
