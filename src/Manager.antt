-- ===== src/Manager.antt =====
-- app/manager.rs: the table of connected nodes, and its use by app/protocol/proto.rs.
--
-- `DashMap` is a library's concurrent map: it is taken with the laws of a map. An `Arc` shares the
-- table, so every clone of a manager is the same table; one state holds it.
pub mod Laws
pub mod Connections
pub mod Table
use crab_rs.Prelude.{String, Bool, true, false, Option, none, some, ◌≡◌, str_eq, if◌then◌else◌}
use crab_rs.Types.{NodeMetadata}

pub record DashMap (V : Type 0) : Type 1 where
  pub Map : Type 0
  pub empty : Map
  pub get : Map → String → Option V
  pub insert : Map → String → V → Map
  pub remove : Map → String → Map
  pub get-empty : (k : String) → get empty k ≡ none
  pub get-insert :
      (m : Map) (k j : String) (v : V)
      → get (insert m k v) j ≡ (if str_eq k j then some v else get m j)
  pub get-remove :
      (m : Map) (k j : String) → get (remove m k) j ≡ (if str_eq k j then none else get m j)

-- `struct Node`
pub record Node (Handle Info : Type 0) : Type 0 where
  pub handle : Handle
  pub info : Info

module _ {Handle Info : Type 0} (d : DashMap (Node Handle Info)) where
  abbrev pub Manager : Type 0
  Manager = d.Map

  unfoldable pub new : Manager
  new = d.empty

  pub insert : String → Handle → Info → Manager → Manager
  insert node_id handle info m = d.insert m node_id (record { handle = handle; info = info })

  pub remove : String → Manager → Manager
  remove node_id m = d.remove m node_id

  abbrev handle_and_info : Option (Node Handle Info) → Option (Handle × Info)
  handle_and_info none = none
  handle_and_info (some n) = some (n.handle, n.info)

  unfoldable pub get : String → Manager → Option (Handle × Info)
  get node_id m = handle_and_info (d.get m node_id)

  abbrev is_some : Option (Node Handle Info) → Bool
  is_some none = false
  is_some (some n) = true

  unfoldable pub exists : String → Manager → Bool
  exists node_id m = is_some (d.get m node_id)
