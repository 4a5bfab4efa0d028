-- ===== src/Call/Routing.antt =====
-- Where a call goes.
use mathlib.Core.List.{Perm}
use mathlib.Core.List.Perm
use drlee.Prelude.{ℕ, ◌≤◌, String, ◌≡◌, refl, subst, sym, ◌≢◌, none, some, [], arith}
use drlee.Prelude.Dict.{Dict, lookup, HasDistinctKeys}
use drlee.Time.{Time, milliseconds}
use drlee.Message.{Request}
use drlee.Registry.{Server, get_remote_rpc}
use drlee.Call.{total_weight, pick, CallRequest, remote, not_registered, route, timeout_of}
use drlee.Call.Pick.{total_weight-perm, pick_member, lookup_of_mem}

-- The two loops meet every entry once, and the draw is at most the total.
pub record Choice (order order' : Dict ℕ → Dict ℕ) (draw : ℕ → ℕ) : Type 0 where
  pub order_perm : (group : Dict ℕ) → Perm (order group) group
  pub order'_perm : (group : Dict ℕ) → Perm (order' group) group
  pub draw_le : (total : ℕ) → draw total ≤ total

module _ (order order' : Dict ℕ → Dict ℕ) (draw : ℕ → ℕ) (c : Choice order order' draw) where
  abbrev pub chosen : Dict ℕ → String
  chosen group = pick (draw (total_weight (order group))) 0 (order' group)

  chosen_member :
      (group : Dict ℕ)
      → group ≢ []
      → HasDistinctKeys group
      → (w : ℕ) × (lookup (chosen group) group ≡ some w)
  chosen_member group e d =
      let (w, m) =
        pick_member (draw (total_weight (order group))) 0 (order' group)
          (λ q. e (sym (Perm.nil-eq (subst (λ g. Perm g group) q (c.order'_perm group)))))
          (omega (
            arith,
            c.draw_le (total_weight (order group)),
            total_weight-perm (c.order_perm group),
            total_weight-perm (c.order'_perm group),
          )) in
      (w, lookup_of_mem (chosen group) w group d ((Perm.mem_iff (c.order'_perm group)).0 m))

  module _ {Conn : Type 0} (now : Time) (id : String) (req : Request) (s : Server Conn)
      (group : Dict ℕ) (away : lookup req.name s.local_services ≡ none)
      (known : lookup req.name s.services ≡ some group) (nonempty : group ≢ [])
      (distinct : HasDistinctKeys group) where
    abbrev call_of : CallRequest
    call_of = record {
      name = req.name;
      body = req.body;
      node_name = s.node_name;
      timeout_milliseconds = milliseconds (timeout_of now req);
    }

    -- A call of a service that this node does not run: whatever the orders of the loops and the
    -- draw, it goes to a node that offers the service, over that node's connection, with the
    -- request's name, body and time left. It is refused only where that node has no connection.
    pub route_offers :
        (node : String) × (w : ℕ) × (lookup node group ≡ some w)
        × (route order order' draw now id req s ≡ elim (get_remote_rpc node s) [
          | none ↦ not_registered
          | some conn ↦ remote conn call_of
        ])
    unfolding route
    route_offers =
        let (w, e) = chosen_member group nonempty distinct in
        (chosen group, w, e, rw (away, known, route) refl)
