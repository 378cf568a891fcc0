-- ===== src/Yaml.antt =====
-- yaml-cpp, which is not part of the repository: a parameter with the laws that src/prov_cli.cpp
-- relies on.
pub mod Example
use iov_vehicle_tbox_prov.Base.{◌≡◌, Bool, true, false, Option, none, some, Str}

pub record YamlLibrary : Type 1 where
  -- a node that is defined
  pub Node : Type 0
  -- `YAML::LoadFile`; `none` is an exception
  pub load_file : Str → Option Node
  pub is_map : Node → Bool
  pub is_scalar : Node → Bool
  -- `node[key]`: the outer `none` is an exception, the inner one a node that is not defined
  pub member : Node → Str → Option (Option Node)
