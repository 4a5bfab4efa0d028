-- ===== src/Registry/Gossip.antt =====
-- Announcing and withdrawing services between two nodes, by broadcasts or by a push/pull of states.
use drlee.Prelude.{
  ℕ, String, ◌≡◌, refl, ◌∙◌, Bool, true, false, ◌&&◌, Option, none, some, List, [], ◌∷◌, ◌++◌, map,
  arith, str_eq, eq_iff, if◌then◌else◌, is_some,
}
use drlee.Prelude.Dict.{Dict, lookup, HasDistinctKeys}
use drlee.Message.{RegistryBroadcast}
use drlee.Time.{Time}
use drlee.Registry.Services.{weight_of, weight_of-handle_registry_broadcast}
use drlee.Registry.{
  Server, handle_registry_broadcast, announcement, local_state, start, withdraw, merge,
  merge_remote_state,
}

-- what a peer knows of one pair after the announcements of `m` by `node`
abbrev pub told : Bool → Dict ℕ → String → Option ℕ → Option ℕ
told is_deleted m name old = elim (lookup name m) [
  | none ↦ old
  | some w ↦ if is_deleted then none else some w
]

module _ {Conn : Type 0} where
  merge_announcements :
      (gone : Bool) (node : String) (now : Time) (m : Dict ℕ) (s : Server Conn)
      (name other : String)
      → HasDistinctKeys m
      → weight_of (merge (map (announcement node now gone) m) s) name other ≡ (
          if str_eq node other
          then told gone m name (weight_of s name other)
          else weight_of s name other)
  unfolding merge lookup
  merge_announcements gone node now [] s name other d = ground arith
  merge_announcements gone node now ((k, w) ∷ m) s name other d =
      let ih =
        merge_announcements gone node now m
          (handle_registry_broadcast (announcement node now gone (k, w)) s) name other d.1 in
      let one =
        weight_of-handle_registry_broadcast (announcement node now gone (k, w)) s name other in
      ih ∙ ground (arith, one, d.0, eq_iff k name)

  merge_read :
      {Bytes : Type 0} (decode : Bytes → Option (List RegistryBroadcast)) (buf : Bytes)
      (bs : List RegistryBroadcast) (s : Server Conn)
      → decode buf ≡ some bs
      → merge_remote_state decode buf s ≡ merge bs s
  unfolding merge_remote_state
  merge_read decode buf bs s e = rw (e, merge_remote_state)

  -- A push/pull: whatever the peer's state, after merging the state of this node it knows this
  -- node's services at their weights, keeps what it knew of this node's other services, and
  -- forgets and learns nothing of other nodes. The codec is assumed to read back what it wrote.
  pub merge_remote_state-local_state :
      {Bytes : Type 0} (encode : List RegistryBroadcast → Bytes)
      (decode : Bytes → Option (List RegistryBroadcast)) (now : Time) (s peer : Server Conn)
      (name other : String)
      → ((bs : List RegistryBroadcast) → decode (encode bs) ≡ some bs)
      → HasDistinctKeys s.local_services
      → weight_of (merge_remote_state decode (encode (local_state now s)) peer) name other ≡ (
          if str_eq s.node_name other
          then elim (lookup name s.local_services) [
            | none ↦ weight_of peer name other
            | some w ↦ some w
          ]
          else weight_of peer name other)
  unfolding local_state
  merge_remote_state-local_state encode decode now s peer name other codec d =
      rw (merge_read decode _ _ peer (codec (local_state now s)), weight_of)
        (merge_announcements false s.node_name now s.local_services peer name other d)

  merge-append :
      (xs ys : List RegistryBroadcast) (s : Server Conn)
      → merge (xs ++ ys) s ≡ merge ys (merge xs s)
  unfolding merge
  merge-append [] ys s = refl
  merge-append (x ∷ xs) ys s = merge-append xs ys (handle_registry_broadcast x s)

  -- A reload: a peer that hears every broadcast of a start and of the stop that follows it knows no
  -- service of this node any more, and what it knew of other nodes and services is unchanged.
  pub withdraw-start :
      (up down : Time) (s peer : Server Conn) (name other : String)
      → s.broadcasts ≡ []
      → HasDistinctKeys s.local_services
      → weight_of (merge (withdraw down (start up s)).broadcasts peer) name other ≡ (
          if str_eq s.node_name other && is_some (lookup name s.local_services)
          then none
          else weight_of peer name other)
  unfolding start withdraw
  withdraw-start up down s peer name other e d =
      rw (e, merge-append)
        (merge_announcements true s.node_name down s.local_services
            (merge (map (announcement s.node_name up false) s.local_services) peer) name other d
          ∙ ground
              (arith, merge_announcements false s.node_name up s.local_services peer name other d))
