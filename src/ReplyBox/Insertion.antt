-- ===== src/ReplyBox/Insertion.antt =====
-- pkg/server/replybox.go: the turn of the loop that takes a response keeps the invariant.
use drlee.Prelude.{
  ℕ, String, ◌≡◌, refl, sym, ◌∙◌, true, false, none, some, List, [], ◌∷◌, arith, if◌then◌else◌,
  eq_refl, eq_iff, str_eq, All, All-map, Bool-cases, Option-cases, inl, inr,
}
use drlee.Prelude.Dict.{lookup, lookup-insert, lookup-delete}
use drlee.Message.{RpcResponse}
use drlee.ReplyBox.Delivery.{early, turn-early, answered, turn-answered}
use drlee.ReplyBox.{Chan, Watch, ReplyBox, turn, insert_case}
use drlee.ReplyBox.Invariant.{holds, contains, Distinct, IsFor, Fits, Inv, Ensures, at_update}

-- one response less in the queue
Fits-rest :
    (used : List String) (res : RpcResponse) (rest : List RpcResponse) (c : Chan)
    → Fits used (res ∷ rest) c
    → Fits used rest c
Fits-rest used res rest c f = record {
  unspent = f.unspent;
  queued = λ e. f.queued (ground arith);
  addressed = f.addressed;
}

-- a channel that takes the response to its own id
Fits-filled :
    (used : List String) (res : RpcResponse) (rest : List RpcResponse) (c : Chan)
    → contains res.id used ≡ true
    → holds res.id rest ≡ false
    → c.owner ≡ res.id
    → c.buf ≡ res ∷ []
    → Fits used rest c
Fits-filled used res rest c l d o e = record {
  unspent = λ x. ground (arith, o);
  queued = λ x. ground (arith, o);
  addressed = rw e (sym o, tt);
}

IsFor-answered :
    (b : ReplyBox) (w : Watch) (res : RpcResponse) (rest : List RpcResponse) (id : String) (ch : ℕ)
    → IsFor b.chans b.next id ch
    → IsFor (answered b w res rest).chans (answered b w res rest).next id ch
unfolding answered
IsFor-answered b w res rest id ch f = record {
  owner = ground arith;
  allocated = f.allocated;
  open_yet = ground arith;
}

IsFor-early :
    (b : ReplyBox) (res : RpcResponse) (rest : List RpcResponse) (id : String) (ch : ℕ)
    → IsFor b.chans b.next id ch
    → IsFor (early b res rest).chans (early b res rest).next id ch
unfolding early
IsFor-early b res rest id ch f = record {
  owner = ground arith;
  allocated = ground arith;
  open_yet = ground arith;
}

module _ {used : List String} {b : ReplyBox} (res : RpcResponse) (rest : List RpcResponse)
    (e : b.insert_ch ≡ res ∷ rest) (v : Inv used b) where
  head-Fits : (c : ℕ) → Fits used (res ∷ rest) (b.chans c)
  head-Fits c = rw e at (v.fits c)

  head-Distinct : Distinct (res ∷ rest)
  head-Distinct = rw e at v.distinct

  head_listed : All (λ r. contains r.id used ≡ true) (res ∷ rest)
  head_listed = rw e at v.listed

  insert_known :
      (w : Watch) → lookup res.id b.replies ≡ some w → Ensures (Inv used) (turn insert_case b)
  insert_known w h = rw (turn-answered b w res rest e h f.open_yet still_empty) (
      unfold answered in
      record {
        keyed = λ id x q.
            IsFor-answered b w res rest id x.ch
              (v.keyed id x (ground (arith, lookup-delete res.id id b.replies)));
        pending = All-map _ _ b.watch_ch (λ x. IsFor-answered b w res rest x.id x.ch) v.pending;
        distinct = head-Distinct.1;
        listed = head_listed.1;
        fits = λ c.
            at_update (Fits used rest) b.chans w.ch c _
              (Fits-filled used res rest _ head_listed.0 head-Distinct.0 f.owner refl)
              (Fits-rest used res rest _ (head-Fits c));
      })
    where
      f : IsFor b.chans b.next res.id w.ch
      f = v.keyed res.id w h

      still_empty : (b.chans w.ch).buf ≡ []
      still_empty = (head-Fits w.ch).queued (ground (arith, f.owner, eq_refl res.id))

  insert_unknown : lookup res.id b.replies ≡ none → Ensures (Inv used) (turn insert_case b)
  insert_unknown h = rw (turn-early b res rest e h) (
      unfold early in
      record {
        keyed = λ id x q. keyed_early id x (sym (lookup-insert res.id id _ b.replies) ∙ q);
        pending = All-map _ _ b.watch_ch (λ x. IsFor-early b res rest x.id x.ch) v.pending;
        distinct = head-Distinct.1;
        listed = head_listed.1;
        fits = λ c.
            at_update (Fits used rest) b.chans b.next c _
              (Fits-filled used res rest _ head_listed.0 head-Distinct.0 refl refl)
              (Fits-rest used res rest _ (head-Fits c));
      })
    where
      keyed_early :
          (id : String) (x : Watch)
          → (if str_eq res.id id
              then some (record { id = res.id; ch = b.next })
              else lookup id b.replies)
            ≡ some x
          → IsFor (early b res rest).chans (early b res rest).next id x.ch
      keyed_early id x q = elim (Bool-cases (str_eq res.id id)) [
        | inl same ↦
            unfold early in
            record {
              owner = ground (arith, eq_iff res.id id);
              allocated = ground arith;
              open_yet = ground arith;
            }
        | inr other ↦ IsFor-early b res rest id x.ch (v.keyed id x (ground arith))
      ]

-- a turn of the loop on a response
pub turn_insert-Inv :
    (used : List String) (b : ReplyBox) (q : List RpcResponse)
    → b.insert_ch ≡ q
    → Inv used b
    → Ensures (Inv used) (turn insert_case b)
turn_insert-Inv used b [] e v = unfold turn in rw e tt
turn_insert-Inv used b (res ∷ rest) e v = elim (Option-cases (lookup res.id b.replies)) [
  | inl h ↦ insert_unknown res rest e v h
  | inr (w, h) ↦ insert_known res rest e v w h
]
