-- ===== src/Diff/Ports.antt =====
-- `diffPorts` of apps/server/src/kernel-next/hot-update/diff.ts.
use workflow_control.Prelude.{
  String, Option, none, some, Bool, not, ◌&&◌, List, [], ◌∷◌, foldl, ◌==◌, length, nat_eq, map_get,
  map_set, map_has, if◌then◌else◌,
}
use workflow_control.Ir.{Port}

pub record PortTypeChange : Type 0 where
  pub port : String
  pub before_type : String
  pub after_type : String

pub record PortsDiff : Type 0 where
  pub added : List Port
  pub removed : List Port
  pub type_changed : List PortTypeChange

-- new Map(ports.map((p) => [p.name, p])): of ports with one name the last counts.
unfoldable pub port_by_name : List Port → List (String × Port)
port_by_name = foldl (λ m (p : Port). map_set m p.name p) []

-- The entries of one dictionary whose key the other lacks.
unfoldable pub entries_beyond : {V : Type 0} → List (String × V) → List (String × V) → List V
entries_beyond others [] = []
entries_beyond others ((k, v) ∷ m) =
    let rest = entries_beyond others m in if not (map_has others k) then v ∷ rest else rest

unfoldable pub type_changes :
    (base : List (String × Port)) → List (String × Port) → List PortTypeChange
type_changes base [] = []
type_changes base ((n, p) ∷ m) =
    let rest = type_changes base m in
    elim (map_get base n) [
      | none ↦ rest
      | some b ↦
          if not (b.type == p.type)
          then record { port = n; before_type = b.type; after_type = p.type } ∷ rest
          else rest
    ]

abbrev pub is_empty : {A : Type 0} → List A → Bool
is_empty xs = nat_eq (length xs) 0

-- `undefined` where the ports are the same.
abbrev pub unless_empty : PortsDiff → Option PortsDiff
unless_empty d =
    if is_empty d.added && is_empty d.removed && is_empty d.type_changed then none else some d

unfoldable pub diff_ports : (base proposed : List Port) → Option PortsDiff
unfolding port_by_name entries_beyond type_changes
diff_ports base proposed = unless_empty (record {
  added = entries_beyond (port_by_name base) (port_by_name proposed);
  removed = entries_beyond (port_by_name proposed) (port_by_name base);
  type_changed = type_changes (port_by_name base) (port_by_name proposed);
})
