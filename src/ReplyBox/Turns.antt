-- ===== src/ReplyBox/Turns.antt =====
-- Each turn of the loop, and each call, keeps the invariant, and none hangs.
use mathlib.Core.Path.{subst₂}
use drlee.Prelude.{
  ℕ, String, ◌≡◌, refl, sym, subst, ◌∙◌, true, false, some, List, [], ◌∷◌, ◌++◌, arith, length, ltb,
  if◌then◌else◌, eq_refl, eq_iff, str_eq, ◌||◌, All, All-append, All-map, Bool-cases, inl, inr,
}
use drlee.Prelude.Dict.{lookup, lookup-insert, lookup-delete}
use drlee.Message.{RpcResponse}
use drlee.ReplyBox.{
  Chan, Watch, ReplyBox, turn, delete_case, watch_case, received, request_insert, request_delete,
}
use drlee.ReplyBox.Invariant.{holds, contains, Distinct, IsFor, Fits, Inv, Ensures, at_update}

holds-append :
    (id : String) (xs : List RpcResponse) (res : RpcResponse)
    → holds id (xs ++ res ∷ []) ≡ (holds id xs || str_eq res.id id)
holds-append id [] res = ground arith
holds-append id (x ∷ xs) res = ground (arith, holds-append id xs res)

Distinct-append :
    (used : List String) (xs : List RpcResponse) (res : RpcResponse)
    → All (λ r. contains r.id used ≡ true) xs
    → contains res.id used ≡ false
    → Distinct xs
    → Distinct (xs ++ res ∷ [])
Distinct-append used [] res l h d = (refl, tt)
Distinct-append used (x ∷ xs) res l h d =
    (rw holds-append (ground (arith, eq_iff res.id x.id)), Distinct-append used xs res l.1 h d.1)

pub request_insert-Inv :
    (used : List String) (b : ReplyBox) (res : RpcResponse)
    → contains res.id used ≡ false
    → Inv used b
    → Ensures (Inv (res.id ∷ used)) (request_insert res b)
unfolding request_insert
request_insert-Inv used b res h v = elim (Bool-cases (ltb (length b.insert_ch) 64)) [
  | inr full ↦ rw full tt
  | inl room ↦ rw room (record {
    keyed = λ id w e. v.keyed id w e;
    pending = v.pending;
    distinct = Distinct-append used b.insert_ch res v.listed h v.distinct;
    listed =
        All-append _ b.insert_ch _ (All-map _ _ b.insert_ch (λ r l. ground arith) v.listed)
          (ground (arith, eq_refl res.id), tt);
    fits = λ c.
        let f = v.fits c in
        record {
          unspent = λ e. ground (arith, f.unspent);
          queued = λ e. ground (
            arith,
            f.unspent,
            f.queued,
            holds-append (b.chans c).owner b.insert_ch res,
            eq_iff res.id (b.chans c).owner,
          );
          addressed = f.addressed;
        };
  })
]

-- a turn of the loop on a deletion
pub turn_delete-Inv :
    (used : List String) (b : ReplyBox) (q : List String)
    → b.delete_ch ≡ q
    → Inv used b
    → Ensures (Inv used) (turn delete_case b)
unfolding turn
turn_delete-Inv used b [] e v = rw e tt
turn_delete-Inv used b (id ∷ rest) e v = rw e (record {
  keyed = λ j x q. v.keyed j x (ground (arith, lookup-delete id j b.replies));
  pending = v.pending;
  distinct = v.distinct;
  listed = v.listed;
  fits = v.fits;
})

-- a turn of the loop on a watcher
pub turn_watch-Inv :
    (used : List String) (b : ReplyBox) (q : List Watch)
    → b.watch_ch ≡ q
    → Inv used b
    → Ensures (Inv used) (turn watch_case b)
unfolding turn
turn_watch-Inv used b [] e v = rw e tt
turn_watch-Inv used b (w ∷ rest) e v = rw e (record {
  keyed = λ j x q. watcher j x (sym (lookup-insert w.id j w b.replies) ∙ q);
  pending = waiting.1;
  distinct = v.distinct;
  listed = v.listed;
  fits = v.fits;
})
  where
    waiting : All (λ x. IsFor b.chans b.next x.id x.ch) (w ∷ rest)
    waiting = subst (All λ x. IsFor b.chans b.next x.id x.ch) e v.pending

    watcher :
        (j : String) (x : Watch)
        → (if str_eq w.id j then some w else lookup j b.replies) ≡ some x
        → IsFor b.chans b.next j x.ch
    watcher j x q = elim (Bool-cases (str_eq w.id j)) [
      | inl same ↦ subst₂ (IsFor b.chans b.next) ((eq_iff w.id j).0 same) (ground arith) waiting.0
      | inr other ↦ v.keyed j x (ground arith)
    ]

Fits-tail :
    (used : List String) (queue : List RpcResponse) (c : Chan)
    → Fits used queue c
    → Fits used queue (record c { buf = elim c.buf [ [] ↦ [] | _ ∷ rest ↦ rest ] })
Fits-tail used queue c f = record {
  unspent = λ x. rw (f.unspent x) refl;
  queued = λ x. rw (f.queued x) refl;
  addressed = addressed_tail c.owner c.buf f.addressed;
}
  where
    addressed_tail :
        (id : String) (q : List RpcResponse)
        → All (λ res. res.id ≡ id) q
        → All (λ res. res.id ≡ id) (elim q [ [] ↦ [] | _ ∷ rest ↦ rest ])
    addressed_tail id [] h = tt
    addressed_tail id (x ∷ rest) h = h.1

pub received-Inv :
    (used : List String) (b : ReplyBox) (ch : ℕ) → Inv used b → Inv used (received ch b)
unfolding received
received-Inv used b ch v = record {
  keyed = λ j x q. drained j x.ch (v.keyed j x q);
  pending = All-map _ _ b.watch_ch (λ x. drained x.id x.ch) v.pending;
  distinct = v.distinct;
  listed = v.listed;
  fits = λ c.
      at_update (Fits used b.insert_ch) b.chans ch c _ (Fits-tail used b.insert_ch _ (v.fits ch))
        (v.fits c);
}
  where
    drained :
        (id : String) (c : ℕ) → IsFor b.chans b.next id c → IsFor (received ch b).chans b.next id c
    drained id c f = record {
      owner = ground arith;
      allocated = f.allocated;
      open_yet = ground arith;
    }

pub request_delete-Inv :
    (used : List String) (b : ReplyBox) (id : String)
    → Inv used b
    → Ensures (Inv used) (request_delete id b)
unfolding request_delete
request_delete-Inv used b id v = elim (Bool-cases (ltb (length b.delete_ch) 64)) [
  | inr full ↦ rw full tt
  | inl room ↦ rw room (record {
    keyed = v.keyed;
    pending = v.pending;
    distinct = v.distinct;
    listed = v.listed;
    fits = v.fits;
  })
]
