-- ===== src/ReplyBox/Blocking.antt =====
-- Between two resets, and with ids that are answered once, the loop neither hangs nor panics, and
-- no channel carries a response to another id than the one it was made for.
use drlee.Prelude.{String, ◌≡◌, refl, false, List, [], ◌∷◌, length, ltb, Bool-cases, inl, inr}
use drlee.ReplyBox.{
  ReplyBox, Outcome, goes, delete_case, insert_case, watch_case, Event, registers, inserts, deletes,
  takes, receives, perform, Received, value, nil, empty,
}
use drlee.ReplyBox.Invariant.{contains, Inv, Ensures, register-Inv}
use drlee.ReplyBox.Turns.{
  request_insert-Inv, request_delete-Inv, turn_delete-Inv, turn_watch-Inv, received-Inv,
}
use drlee.ReplyBox.Insertion.{turn_insert-Inv}

-- ids that were not handed to `Insert` before
abbrev pub IsFresh : List String → Event → Type 0
IsFresh used (inserts res) = contains res.id used ≡ false
IsFresh used _ = Unit

abbrev pub spend : Event → List String → List String
spend (inserts res) used = res.id ∷ used
spend _ used = used

abbrev pub AllFresh : List String → List Event → Type 0
AllFresh used [] = Unit
AllFresh used (e ∷ es) = IsFresh used e × AllFresh (spend e used) es

-- Whatever a caller or the loop does, the invariant stays and the loop does not hang.
pub perform-Inv :
    (used : List String) (b : ReplyBox) (e : Event)
    → IsFresh used e
    → Inv used b
    → Ensures (Inv (spend e used)) (perform e b)
perform-Inv used b (inserts res) h v = unfold perform in request_insert-Inv used b res h v
perform-Inv used b (deletes id) h v = unfold perform in request_delete-Inv used b id v
perform-Inv used b (takes delete_case) h v =
    unfold perform in turn_delete-Inv used b b.delete_ch refl v
perform-Inv used b (takes insert_case) h v =
    unfold perform in turn_insert-Inv used b b.insert_ch refl v
perform-Inv used b (takes watch_case) h v =
    unfold perform in turn_watch-Inv used b b.watch_ch refl v
perform-Inv used b (receives ch) h v = unfold perform in received-Inv used b ch v
perform-Inv used b (registers id) h v = elim (Bool-cases (ltb (length b.watch_ch) 64)) [
  | inr full ↦ unfold perform in rw full tt
  | inl room ↦ unfold perform in rw room (register-Inv used b id v)
]

abbrev Ends : Outcome → Type 0
Ends o = (b : ReplyBox) × (used : List String) × (o ≡ goes b) × Inv used b

-- What was received is a response to `id`, if it is one.
abbrev pub IsFor : String → Received → Type 0
IsFor id (value res) = res.id ≡ id
IsFor id nil = Unit
IsFor id empty = Unit
