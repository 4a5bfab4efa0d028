-- ===== src/Registry/Nodes.antt =====
-- Nodes that join, change and leave: the connections stay paired with the clients, and a node that
-- left is gone from every service.
use drlee.Prelude.{
  ℕ, String, ◌≡◌, refl, sym, ◌∙◌, Option, none, [], ◌∷◌, arith, str_eq, if◌then◌else◌, Option-cases,
  Bool-cases, inl, inr, is_some,
}
use drlee.Prelude.Int.{ℤ}
use drlee.Prelude.Dict.{Dict, lookup, lookup-insert, lookup-delete}
use drlee.Prelude.Result.{Result, ok}
use drlee.Message.{RegistryBroadcast}
use drlee.Meta.{decode_meta}
use drlee.Registry.Services.{weight_in, weight_of}
use drlee.Registry.{
  Node, Server, handle_registry_broadcast, handle_node, notify_join, notify_leave, notify_update,
  get_remote_rpc, delete_node,
}

weight_in-delete_node :
    (gone name node : String) (m : Dict (Dict ℕ))
    → weight_in (delete_node gone m) name node
      ≡ (if str_eq gone node then none else weight_in m name node)
unfolding delete_node lookup
weight_in-delete_node gone name node [] = ground arith
weight_in-delete_node gone name node ((k, group) ∷ m) = elim (Bool-cases (str_eq k name)) [
  | inl same ↦ rw (same, weight_in) (lookup-delete gone node group)
  | inr other ↦ rw (other, weight_in) (weight_in-delete_node gone name node m)
]

-- What happens to a server's tables, in the order in which the gossip layer reports it.
pub data Report : Type 0 where
  joins leaves updates : Node → Report
  says : RegistryBroadcast → Report

module _ {Conn : Type 0} where
  -- Each connection has its client, and no client is without its connection.
  abbrev pub IsPaired : Server Conn → Type 0
  IsPaired s = (n : String) → lookup n s.endpoint_rpcs ≡ lookup n s.endpoints

  abbrev pub Keeps : (Server Conn → Type 0) → Result (Server Conn) → Type 0
  Keeps P (ok s) = P s
  Keeps P _ = Unit

module _ {Conn : Type 0} (dial : String → ℤ → Option Conn) where
  unfoldable pub report : Report → Server Conn → Result (Server Conn)
  report (joins node) s = notify_join dial node s
  report (leaves node) s = ok (notify_leave node s)
  report (updates node) s = notify_update dial node s
  report (says b) s = ok (handle_registry_broadcast b s)

  handle_node-IsPaired :
      (node : Node) (s : Server Conn) → IsPaired s → Keeps IsPaired (handle_node dial node s)
  unfolding handle_node
  handle_node-IsPaired node s v = elim (Option-cases (decode_meta node.meta)) [
    | inl e ↦ rw (e, Keeps, handle_node) tt
    | inr (m, e) ↦
        rw (e, Keeps, handle_node)
          (elim (Option-cases (dial node.addr m.rpc_port)) [
            | inl q ↦ rw (q, Keeps) tt
            | inr (c, q) ↦
                rw (q, Keeps)
                  (λ n.
                    lookup-insert node.name n c s.endpoint_rpcs
                    ∙ (rw (v n) (sym (lookup-insert node.name n c s.endpoints))))
          ])
  ]

  -- Whatever the gossip layer reports, connections and clients keep having the same nodes.
  pub report-IsPaired : (r : Report) (s : Server Conn) → IsPaired s → Keeps IsPaired (report r s)
  unfolding report notify_join notify_update notify_leave handle_registry_broadcast
  report-IsPaired (joins node) s v = handle_node-IsPaired node s v
  report-IsPaired (leaves node) s v = λ n.
      rw (lookup-delete node.name n s.endpoint_rpcs, lookup-delete node.name n s.endpoints, v n)
        refl
  report-IsPaired (updates node) s v = elim (Bool-cases (is_some (lookup node.name s.endpoints))) [
    | inl here ↦ rw here (handle_node-IsPaired node s v)
    | inr away ↦ rw away v
  ]
  report-IsPaired (says b) s v = v

module _ {Conn : Type 0} where
  -- A node that left offers no service and has no client, and nothing else changed.
  pub notify_leave_forgets :
      (node : Node) (s : Server Conn) (name other : String)
      → (weight_of (notify_leave node s) name other
          ≡ (if str_eq node.name other then none else weight_of s name other))
        × (get_remote_rpc other (notify_leave node s)
            ≡ (if str_eq node.name other then none else get_remote_rpc other s))
  unfolding notify_leave get_remote_rpc
  notify_leave_forgets node s name other = (
    weight_in-delete_node node.name name other s.services,
    lookup-delete node.name other s.endpoint_rpcs,
  )
