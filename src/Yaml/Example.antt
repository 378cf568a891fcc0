-- ===== src/Yaml/Example.antt =====
-- A YAML library that is a function: a file system of two documents.
use iov_vehicle_tbox_prov.Base.{
  if◌then◌else◌, Bool, true, false, Option, none, some, Str, str_eq, codes,
}
use iov_vehicle_tbox_prov.Yaml.{YamlLibrary}

-- A scalar, or a mapping with its entries.
mutual
  pub data Node : Type 0 where
    scalar : Str → Node
    mapping : Entries → Node

  pub data Entries : Type 0 where
    empty : Entries
    entry : Str → Node → Entries → Entries

find : Str → Entries → Option Node
find k empty = none
find k (entry key n rest) = let later = find k rest in if str_eq k key then some n else later

is_map : Node → Bool
is_map (scalar text) = false
is_map (mapping entries) = true

is_scalar : Node → Bool
is_scalar (scalar text) = true
is_scalar (mapping entries) = false

-- A subscript of a scalar throws.
member : Node → Str → Option (Option Node)
member (scalar text) k = none
member (mapping entries) k = some (find k entries)

-- A file that sets the socket only.
abbrev deployed : Node
deployed = mapping (
    entry (codes "prov")
      (mapping (
        entry (codes "ipc")
          (mapping (entry (codes "socket_path") (scalar (codes "/run/prov.sock")) empty)) empty))
      empty)

-- A file that also sets the UID, for a test.
abbrev for_test : Node
for_test = mapping (
    entry (codes "prov")
      (mapping (
        entry (codes "uid") (scalar (codes "ABC")) (
          entry (codes "ipc")
            (mapping (entry (codes "socket_path") (scalar (codes "/run/prov.sock")) empty)) empty)))
      empty)

load_file : Str → Option Node
load_file path =
    if str_eq path (codes "prov.yaml")
    then some deployed
    else if str_eq path (codes "test.yaml")
    then some for_test
    else if str_eq path (codes "flat.yaml")
    then some (mapping (entry (codes "prov") (scalar (codes "x")) empty))
    else none

unfoldable pub example : YamlLibrary
unfolding find is_map is_scalar member load_file
example = record {
  Node = Node;
  load_file = load_file;
  is_map = is_map;
  is_scalar = is_scalar;
  member = member;
}
