-- ===== src/Lifecycle/Listening.antt =====
-- pkg/server/listeners.go: the workers of a node share their listeners.
use drlee.Prelude.{
  String, ◌≡◌, refl, sym, ap, ◌∙◌, Option, none, some, if◌then◌else◌, arith, Option-cases,
  Bool-cases, subst, inl, inr, str_eq, eq_refl, eq_iff,
}
use drlee.Prelude.Dict.{Dict, lookup, insert, lookup-insert}
use drlee.Lifecycle.{Listeners, or_empty, group_of, listen}

module _ {Lis : Type 0} (bind : String → String → Option Lis) where
  -- the listener that is held for a network and an address
  abbrev pub held : String → String → Listeners Lis → Option Lis
  held network addr m = lookup addr (group_of network m)

  group_of-insert :
      (network other : String) (group : Dict Lis) (m : Listeners Lis)
      → group_of other (insert network group m)
        ≡ (if str_eq network other then group else group_of other m)
  group_of-insert network other group m =
      ap or_empty (lookup-insert network other group m) ∙ ground arith

  held-insert :
      (network addr other addr' : String) (lis : Lis) (m : Listeners Lis)
      → held other addr' (insert network (insert addr lis (group_of network m)) m) ≡ (
          if str_eq network other
          then if str_eq addr addr' then some lis else held other addr' m
          else held other addr' m)
  held-insert network addr other addr' lis m =
      ap (lookup addr') (group_of-insert network other (insert addr lis (group_of network m)) m)
      ∙ (elim (Bool-cases (str_eq network other)) [
        | inl q ↦
            let same : network ≡ other = ground (arith, eq_iff network other) in
            let e = ap (λ n. lookup addr' (group_of n m)) same in
            rw q (lookup-insert addr addr' lis (group_of network m) ∙ (rw e refl))
        | inr q ↦ rw q refl
      ])

  -- what a first call of Listen leaves
  abbrev pub Shared :
      (String → String → Option Lis)
      → String
      → String
      → Listeners Lis
      → Option Lis
      → Listeners Lis
      → Type 0
  Shared again network addr m lis m' =
      (listen again network addr m' ≡ (lis, m'))
      × ((other addr' : String)
          → held other addr' m' ≡ (
              if str_eq network other
              then if str_eq addr addr' then lis else held other addr' m
              else held other addr' m))

  kept :
      (network addr other addr' : String) (lis : Lis) (m : Listeners Lis)
      → held network addr m ≡ some lis
      → held other addr' m ≡ (
          if str_eq network other
          then if str_eq addr addr' then some lis else held other addr' m
          else held other addr' m)
  kept network addr other addr' lis m h = elim (Bool-cases (str_eq network other)) [
    | inr q ↦ rw q refl
    | inl q ↦ elim (Bool-cases (str_eq addr addr')) [
      | inr r ↦ rw (q, r) refl
      | inl r ↦
          let same : network ≡ other = ground (arith, eq_iff network other) in
          let same' : addr ≡ addr' = ground (arith, eq_iff addr addr') in
          rw (q, r)
            (subst (λ n. held n addr' m ≡ some lis) same
              (subst (λ a. held network a m ≡ some lis) same' h))
    ]
  ]

  -- Whoever listens first opens the listener; whoever listens there again, whatever would happen if
  -- a listener were opened, gets the same one and nothing changes. No other address is touched.
  pub listen-Shared :
      (again : String → String → Option Lis) (network addr : String) (m m' : Listeners Lis)
      (lis : Lis)
      → listen bind network addr m ≡ (some lis, m')
      → Shared again network addr m (some lis) m'
  unfolding listen
  listen-Shared again network addr m m' lis e = elim (Option-cases (held network addr m)) [
    | inr (old, h) ↦
        let q : listen bind network addr m ≡ (some old, m) = rw (h, listen) refl in
        subst (λ p. Shared again network addr m p.0 p.1) (sym q ∙ e)
          (rw (h, listen) refl, λ other addr'. kept network addr other addr' old m h)
    | inl h ↦ elim (Option-cases (bind network addr)) [
      | inl q ↦
          let n : listen bind network addr m ≡ (none, insert network (group_of network m) m) =
            rw (h, q, listen) refl in
          cc
      | inr (new, q) ↦
          let m'' = insert network (insert addr new (group_of network m)) m in
          let n : listen bind network addr m ≡ (some new, m'') = rw (h, q, listen) refl in
          let there : held network addr m'' ≡ some new =
            held-insert network addr network addr new m ∙ rw (eq_refl network, eq_refl addr) refl in
          subst (λ p. Shared again network addr m p.0 p.1) (sym n ∙ e)
            (rw (there, listen) refl, λ other addr'. held-insert network addr other addr' new m)
    ]
  ]
