-- ===== src/Json/Succeeding.antt =====
-- pkg/core/json/json.go: the encoder on tables that put_table what their places in a tree of JSON need.
use drlee.Prelude.{
  ℕ, zero, suc, ◌≤◌, ◌<◌, String, true, false, ◌≡◌, refl, List, [], ◌∷◌, All, All-map, arith, ◌∙◌,
}
use drlee.Prelude.{some}
use drlee.Prelude.Result.{ok}
use drlee.Lua.{
  LValue, nil, bool, number, string, function, user_data, thread, table, channel, is_nil,
}
use drlee.Json.{
  Json, json_array, json_object, Items, item, Fields, field, Outcome, gives, encode_items,
  encode_fields, encode_shape, Given, encode, is_in, Error,
}
use drlee.Json.Decoding.{Entries, encode_text}
use drlee.Json.Plain.{
  size, size_items, size_fields, numbered, named, shape_of-numbered, shape_of-named,
}

abbrev AreUnder : ℕ → List ℕ → Type 0
AreUnder n visited = All (λ u. u < n) visited

AreUnder-weaken : (m n : ℕ) (visited : List ℕ) → m ≤ n → AreUnder m visited → AreUnder n visited
AreUnder-weaken m n visited h b = All-map _ _ visited (λ u. omega arith) b

is_in-under : (n : ℕ) (visited : List ℕ) → AreUnder n visited → is_in n visited ≡ false
is_in-under n [] b = refl
is_in-under n (u ∷ us) (x, b) = ground (arith, is_in-under n us b)

module _ {F : Type 0} (g : Given F) where
  pub encode_text-gives :
      (print : Json F → String) (message : Error → String) (f : ℕ → Entries F) (fuel : ℕ)
      (j : Json F) (v : LValue F) (visited : List ℕ)
      → is_nil v ≡ false
      → encode (record g { heap = f }) fuel [] v ≡ gives j visited
      → encode_text print message (record g { heap = f }) fuel v ≡ some (ok (print j))
  unfolding encode_text
  encode_text-gives print message f fuel j nil visited n e = cc
  encode_text-gives print message f fuel j (bool b) visited n e = rw (encode_text, e) refl
  encode_text-gives print message f fuel j (number x) visited n e = rw (encode_text, e) refl
  encode_text-gives print message f fuel j (string s) visited n e = rw (encode_text, e) refl
  encode_text-gives print message f fuel j (function p) visited n e = rw (encode_text, e) refl
  encode_text-gives print message f fuel j (user_data u) visited n e = rw (encode_text, e) refl
  encode_text-gives print message f fuel j (thread x) visited n e = rw (encode_text, e) refl
  encode_text-gives print message f fuel j (table t) visited n e = rw (encode_text, e) refl
  encode_text-gives print message f fuel j (channel c) visited n e = rw (encode_text, e) refl

  abbrev pub Agrees : ℕ → ℕ → (ℕ → Entries F) → (ℕ → Entries F) → Type 0
  Agrees lo hi f f' = (u : ℕ) → lo ≤ u → u < hi → f' u ≡ f u

  abbrev with_heap : (ℕ → Entries F) → Given F
  with_heap f = record g { heap = f }

  -- The encoder gives `a`, on any later heap, with the tables from `lo` up to `hi` not marked before.
  abbrev Succeeds :
      {A : Type 0}
      → ℕ
      → ℕ
      → (ℕ → Entries F)
      → ℕ
      → ((ℕ → Entries F) → ℕ → List ℕ → Outcome A)
      → A
      → Type 0
  Succeeds lo hi f least run a =
      (f' : ℕ → Entries F)
      → Agrees lo hi f f'
      → (fuel : ℕ) → least ≤ fuel
      → (visited : List ℕ) → AreUnder lo visited
      → (visited' : List ℕ) × ((run f' fuel visited ≡ gives a visited') × AreUnder hi visited')

  abbrev pub Encodes : ℕ → ℕ → (ℕ → Entries F) → Json F → LValue F → Type 0
  Encodes lo hi f j v =
      Succeeds lo hi f (size j) (λ f' fuel visited. encode (with_heap f') fuel visited v) j

  abbrev pub EncodesItems : ℕ → ℕ → (ℕ → Entries F) → Items F → List (LValue F) → Type 0
  EncodesItems lo hi f js vs =
      Succeeds lo hi f (size_items js)
        (λ f' fuel visited. encode_items (encode (with_heap f') fuel) visited vs) js

  abbrev pub EncodesFields : ℕ → ℕ → (ℕ → Entries F) → Fields F → List (String × LValue F) → Type 0
  EncodesFields lo hi f fs vs =
      Succeeds lo hi f (size_fields fs)
        (λ f' fuel visited. encode_fields (encode (with_heap f') fuel) visited vs) fs

  pub items_cons :
      (lo mid hi : ℕ) (f f' : ℕ → Entries F) (j : Json F) (js : Items F) (v : LValue F)
      (vs : List (LValue F))
      → lo ≤ mid
      → mid ≤ hi
      → Agrees lo mid f f'
      → Encodes lo mid f j v
      → EncodesItems mid hi f' js vs
      → EncodesItems lo hi f' (item j js) (v ∷ vs)
  unfolding encode_items size_items
  items_cons lo mid hi f f' j js v vs lm mh a e es f'' a' fuel h visited b =
      let (visited1, (e1, b1)) =
        e f'' (λ u l m. a' u l (omega arith) ∙ a u l m) fuel (omega arith) visited b in
      let (visited2, (e2, b2)) =
        es f'' (λ u l m. a' u (omega arith) m) fuel (omega arith) visited1 b1 in
      (visited2, (rw (e1, e2) refl, b2))

  pub fields_cons :
      (lo mid hi : ℕ) (f f' : ℕ → Entries F) (k : String) (j : Json F) (fs : Fields F)
      (v : LValue F) (vs : List (String × LValue F))
      → lo ≤ mid
      → mid ≤ hi
      → Agrees lo mid f f'
      → Encodes lo mid f j v
      → EncodesFields mid hi f' fs vs
      → EncodesFields lo hi f' (field k j fs) ((k, v) ∷ vs)
  unfolding encode_fields size_fields
  fields_cons lo mid hi f f' k j fs v vs lm mh a e es f'' a' fuel h visited b =
      let (visited1, (e1, b1)) =
        e f'' (λ u l m. a' u l (omega arith) ∙ a u l m) fuel (omega arith) visited b in
      let (visited2, (e2, b2)) =
        es f'' (λ u l m. a' u (omega arith) m) fuel (omega arith) visited1 b1 in
      (visited2, (rw (e1, e2) refl, b2))

  pub array-Encodes :
      ((i : ℕ) → g.same (g.to_number i) (g.to_number i) ≡ true)
      → (t hi : ℕ) (f : ℕ → Entries F) (js : Items F) (vs : List (LValue F)) → t < hi
      → f t ≡ numbered g.to_number 1 vs
      → EncodesItems (suc t) hi f js vs
      → Encodes t hi f (json_array js) (table t)
  unfolding encode encode_shape size
  array-Encodes same t hi f js vs th at es f' a zero h visited b = ground arith
  array-Encodes same t hi f js vs th at es f' a (suc fuel) h visited b =
      let (visited1, (e1, b1)) =
        es f' (λ u l m. a u (omega arith) m) fuel (omega arith) (t ∷ visited)
          (omega arith, AreUnder-weaken t (suc t) visited (omega arith) b) in
      let at' : f' t ≡ numbered g.to_number 1 vs = a t (omega arith) th ∙ at in
      (
        visited1,
        (rw (is_in-under t visited b, at', shape_of-numbered g same vs, encode_shape, e1) refl, b1),
      )

  pub object-Encodes :
      (t hi : ℕ) (f : ℕ → Entries F) (fs : Fields F) (k : String) (v : LValue F)
      (vs : List (String × LValue F))
      → ((i : ℕ) → g.same (g.to_number i) (g.to_number i) ≡ true)
      → g.by_key ((k, v) ∷ vs) ≡ (k, v) ∷ vs
      → t < hi
      → f t ≡ named ((k, v) ∷ vs)
      → EncodesFields (suc t) hi f fs ((k, v) ∷ vs)
      → Encodes t hi f (json_object fs) (table t)
  unfolding encode encode_shape size
  object-Encodes t hi f fs k v vs same sorted th at es f' a zero h visited b = ground arith
  object-Encodes t hi f fs k v vs same sorted th at es f' a (suc fuel) h visited b =
      let (visited1, (e1, b1)) =
        es f' (λ u l m. a u (omega arith) m) fuel (omega arith) (t ∷ visited)
          (omega arith, AreUnder-weaken t (suc t) visited (omega arith) b) in
      let at' : f' t ≡ named ((k, v) ∷ vs) = a t (omega arith) th ∙ at in
      (
        visited1,
        (
          rw (is_in-under t visited b, at', shape_of-named g same k v vs, encode_shape, sorted, e1)
              refl,
          b1,
        ),
      )
