-- ===== src/Registry/Services.antt =====
-- What a registry broadcast does to the table of services.
use drlee.Prelude.{
  ℕ, String, ◌≡◌, ◌&&◌, Option, none, some, arith, str_eq, eq_iff, if◌then◌else◌, Bool-cases, inl,
  inr,
}
use drlee.Prelude.Dict.{Dict, lookup, insert, lookup-insert, lookup-delete}
use drlee.Message.{RegistryBroadcast}
use drlee.Registry.{Server, handle_registry_broadcast, services_of}

-- the weight under which a node offers a service
abbrev pub weight_in : Dict (Dict ℕ) → String → String → Option ℕ
weight_in m name node = elim (lookup name m) [ none ↦ none | some group ↦ lookup node group ]

pub weight_in-insert :
    (k name node : String) (group : Dict ℕ) (m : Dict (Dict ℕ))
    → weight_in (insert k group m) name node
      ≡ (if str_eq k name then lookup node group else weight_in m name node)
weight_in-insert k name node group m = elim (Bool-cases (str_eq k name)) [
  | inl same ↦ rw (lookup-insert k name group m, weight_in, same)
  | inr other ↦ rw (lookup-insert k name group m, weight_in, other)
]

lookup-services_of :
    (name node : String) (m : Dict (Dict ℕ))
    → lookup node (services_of name m) ≡ weight_in m name node
unfolding lookup
lookup-services_of name node m = ground arith

module _ {Conn : Type 0} where
  abbrev pub weight_of : Server Conn → String → String → Option ℕ
  weight_of s name node = weight_in s.services name node

  -- A broadcast sets or removes the one pair that it names, and no other.
  pub weight_of-handle_registry_broadcast :
      (b : RegistryBroadcast) (s : Server Conn) (name node : String)
      → weight_of (handle_registry_broadcast b s) name node ≡ (
          if str_eq b.name name && str_eq b.node_name node
          then (if b.is_deleted then none else some b.weight)
          else weight_of s name node)
  unfolding handle_registry_broadcast
  weight_of-handle_registry_broadcast b s name node = elim (Bool-cases b.is_deleted) [
    | inl gone ↦
        rw (gone, weight_in-insert, lookup-delete, lookup-services_of)
          (ground (arith, eq_iff b.name name))
    | inr here ↦
        rw (here, weight_in-insert, lookup-insert, lookup-services_of)
          (ground (arith, eq_iff b.name name))
  ]
