-- ===== src/Json/Again.antt =====
-- pkg/core/json/json.go: what DecodeValue makes of a plain JSON value is encoded to the same value.
use drlee.Prelude.{
  ℕ, ◌≤◌, ◌<◌, String, false, ◌≡◌, ◌≢◌, refl, List, [], ◌∷◌, ◌++◌, All, arith, ◌∙◌, ap, str_eq,
  append-nil, append_assoc,
}
use drlee.Prelude.Result.{Result}
use drlee.Lua.{LValue, table, is_nil}
use drlee.Json.{
  Json, json_null, json_bool, json_number, json_string, json_raw, json_array, json_object, Items,
  no_items, item, Fields, no_fields, field, encode_items, encode_fields, Given, encode,
}
use drlee.Json.Decoding.{
  Entries, Heap, put_table, create_table, LuaTables, decode_value, decode_items, decode_fields,
}
use drlee.Json.Plain.{
  parsed, parsed_items, parsed_fields, is_null, keys, IsPlain, ArePlain, HasPlain, Differ,
  Differ-head, Differ-step, numbered, named, names, Laws,
}
use drlee.Json.Succeeding.{
  Encodes, EncodesItems, EncodesFields, items_cons, fields_cons, array-Encodes, object-Encodes,
}

module _ {F : Type 0} (g : Given F) (l : LuaTables F) (InOrder : List String → Type 0)
    (laws : Laws g l InOrder) where
  -- Tables that were there are as before, but for `t`.
  abbrev Keeps : ℕ → Heap F → Heap F → Type 0
  Keeps t h h' = (h.next ≤ h'.next) × ((u : ℕ) → u < h.next → u ≢ t → h'.entries u ≡ h.entries u)

  abbrev Decoded : Json F → Heap F → LValue F × Heap F → Type 0
  Decoded j h (v, h') =
      (is_nil v ≡ is_null j)
      × ((h.next ≤ h'.next)
          × (((u : ℕ) → u < h.next → h'.entries u ≡ h.entries u)
              × Encodes g h.next h'.next h'.entries j v))

  abbrev DecodedItems : Items F → ℕ → List (LValue F) → Heap F → Heap F → Type 0
  DecodedItems js t before h h' =
      (vs : List (LValue F)) × ((h'.entries t ≡ numbered g.to_number 1 (before ++ vs))
        × (Keeps t h h' × EncodesItems g h.next h'.next h'.entries js vs))

  appended :
      (t : ℕ) (before : List (LValue F)) (h h2 : Heap F) (j : Json F) (v : LValue F)
      → t < h.next
      → is_null j ≡ false
      → h.entries t ≡ numbered g.to_number 1 before
      → Decoded j h (v, h2)
      → (put_table t (l.append (h2.entries t) v) h2).entries t
        ≡ numbered g.to_number 1 (before ++ v ∷ [])
  appended t before h h2 j v th nn at (nv, (le, (kept, enc))) =
      let there : h2.entries t ≡ numbered g.to_number 1 before = kept t th ∙ at in
      let more : l.append (h2.entries t) v ≡ numbered g.to_number 1 (before ++ v ∷ []) =
        rw (there) (laws.append_last before v (nv ∙ nn)) in
      ground (arith, more)

  items_step :
      (t : ℕ) (before : List (LValue F)) (h h2 h4 : Heap F) (es : Entries F) (j : Json F)
      (js : Items F) (v : LValue F)
      → t < h.next
      → Decoded j h (v, h2)
      → DecodedItems js t (before ++ v ∷ []) (put_table t es h2) h4
      → DecodedItems (item j js) t before h h4
  items_step t before h h2 h4 es j js v th (nv, (le, (kept, enc)))
        (vs, (at4, ((le4, kept4), encs))) =
      (
        v ∷ vs,
        (
          at4 ∙ ap (numbered g.to_number 1) (append_assoc before (v ∷ []) vs),
          (
            (omega arith, λ u a b. kept4 u (omega arith) b ∙ ground (arith, kept u a)),
            items_cons g h.next h2.next h4.next h2.entries h4.entries j js v vs le le4
                (λ u a b. kept4 u b (omega arith) ∙ ground arith) enc encs,
          ),
        ),
      )

  abbrev DecodedFields : Fields F → ℕ → List (String × LValue F) → Heap F → Heap F → Type 0
  DecodedFields fs t before h h' =
      (vs : List (String × LValue F)) × ((names vs ≡ keys fs)
        × ((h'.entries t ≡ named (before ++ vs))
            × (Keeps t h h' × EncodesFields g h.next h'.next h'.entries fs vs)))

  set_named :
      (t : ℕ) (before : List (String × LValue F)) (h h2 : Heap F) (k : String) (j : Json F)
      (v : LValue F)
      → t < h.next
      → is_null j ≡ false
      → h.entries t ≡ named before
      → All (λ k'. str_eq k' k ≡ false) (names before)
      → Decoded j h (v, h2)
      → (put_table t (l.raw_set_h (h2.entries t) k v) h2).entries t ≡ named (before ++ (k, v) ∷ [])
  set_named t before h h2 k j v th nn at new (nv, (le, (kept, enc))) =
      let there : h2.entries t ≡ named before = kept t th ∙ at in
      let more : l.raw_set_h (h2.entries t) k v ≡ named (before ++ (k, v) ∷ []) =
        rw (there) (laws.set_new before k v (nv ∙ nn) new) in
      ground (arith, more)

  fields_step :
      (t : ℕ) (before : List (String × LValue F)) (h h2 h4 : Heap F) (es : Entries F) (k : String)
      (j : Json F) (fs : Fields F) (v : LValue F)
      → t < h.next
      → Decoded j h (v, h2)
      → DecodedFields fs t (before ++ (k, v) ∷ []) (put_table t es h2) h4
      → DecodedFields (field k j fs) t before h h4
  fields_step t before h h2 h4 es k j fs v th (nv, (le, (kept, enc)))
        (vs, (same, (at4, ((le4, kept4), encs)))) =
      (
        (k, v) ∷ vs,
        (
          ap (λ ks. k ∷ ks) same,
          (
            at4 ∙ ap named (append_assoc before ((k, v) ∷ []) vs),
            (
              (omega arith, λ u a b. kept4 u (omega arith) b ∙ ground (arith, kept u a)),
              fields_cons g h.next h2.next h4.next h2.entries h4.entries k j fs v vs le le4
                  (λ u a b. kept4 u b (omega arith) ∙ ground arith) enc encs,
            ),
          ),
        ),
      )

  array-Decoded :
      (js : Items F) (h h' : Heap F)
      → DecodedItems js h.next [] (create_table h) h'
      → Decoded (json_array js) h (table h.next, h')
  array-Decoded js h h' (vs, (at, ((le, kept), encs))) = (
    refl,
    (
      omega arith,
      (
        λ u a. kept u (omega arith) (omega arith) ∙ ground arith,
        array-Encodes g laws.same_number h.next h'.next h'.entries js vs (omega arith) at encs,
      ),
    ),
  )

  object-Decoded :
      (fs : Fields F) (k : String) (ks : List String) (h h' : Heap F)
      → keys fs ≡ k ∷ ks
      → InOrder (keys fs)
      → DecodedFields fs h.next [] (create_table h) h'
      → Decoded (json_object fs) h (table h.next, h')
  object-Decoded fs k ks h h' e ordered ([], (same, more)) = cc
  object-Decoded fs k ks h h' e ordered ((k1, v) ∷ vs, (same, (at, ((le, kept), encs)))) = (
    refl,
    (
      omega arith,
      (
        λ u a. kept u (omega arith) (omega arith) ∙ ground arith,
        object-Encodes g h.next h'.next h'.entries fs k1 v vs laws.same_number
            (laws.by_key_id ((k1, v) ∷ vs) (rw (same) ordered)) (omega arith) at encs,
      ),
    ),
  )

  mutual
    unfolding decode_value parsed IsPlain encode encode_items encode_fields

    value-Decoded :
        (j : Json F) (h : Heap F) → IsPlain g InOrder j → Decoded j h (decode_value l (parsed j) h)
    value-Decoded json_null h p =
        (refl, (omega arith, (λ u a. refl, λ f' a fuel lo visited b. (visited, (refl, b)))))
    value-Decoded (json_bool x) h p =
        (refl, (omega arith, (λ u a. refl, λ f' a fuel lo visited b. (visited, (refl, b)))))
    value-Decoded (json_number x) h p =
        (refl, (omega arith, (λ u a. refl, λ f' a fuel lo visited b. (visited, (rw (p) refl, b)))))
    value-Decoded (json_string s) h p =
        (refl, (omega arith, (λ u a. refl, λ f' a fuel lo visited b. (visited, (refl, b)))))
    value-Decoded (json_raw s) h p = cc
    value-Decoded (json_array js) h p =
        array-Decoded js h _
          (items-Decoded js h.next [] (create_table h) p (omega arith) (ground arith))
    value-Decoded (json_object no_fields) h p = cc
    value-Decoded (json_object (field k j fs)) h p =
        object-Decoded (field k j fs) k (keys fs) h _ refl p.0 (
          fields-Decoded (field k j fs) h.next [] (create_table h) p.1 (omega arith) (ground arith)
            tt)

    items-Decoded :
        (js : Items F) (t : ℕ) (before : List (LValue F)) (h : Heap F)
        → ArePlain g InOrder js
        → t < h.next
        → h.entries t ≡ numbered g.to_number 1 before
        → DecodedItems js t before h (decode_items l (parsed_items js) t h)
    items-Decoded no_items t before h p th at = (
      [],
      (
        rw (append-nil before) at,
        ((omega arith, λ u a b. refl), λ f' a fuel lo visited b. (visited, (refl, b))),
      ),
    )
    items-Decoded (item j js) t before h (nn, (p, ps)) th at =
        let d = value-Decoded j h p in
        let (v, h2) = decode_value l (parsed j) h in
        items_step t before h h2 _ (l.append (h2.entries t) v) j js v th d (
          items-Decoded js t (before ++ v ∷ []) (put_table t (l.append (h2.entries t) v) h2) ps
            (omega (arith, d.1)) (appended t before h h2 j v th nn at d))

    fields-Decoded :
        (fs : Fields F) (t : ℕ) (before : List (String × LValue F)) (h : Heap F)
        → HasPlain g InOrder fs
        → t < h.next
        → h.entries t ≡ named before
        → Differ (names before) (keys fs)
        → DecodedFields fs t before h (decode_fields l (parsed_fields fs) t h)
    fields-Decoded no_fields t before h p th at new = (
      [],
      (
        refl,
        (
          rw (append-nil before) at,
          ((omega arith, λ u a b. refl), λ f' a fuel lo visited b. (visited, (refl, b))),
        ),
      ),
    )
    fields-Decoded (field k j fs) t before h (nn, (apart, (p, ps))) th at new =
        let d = value-Decoded j h p in
        let (v, h2) = decode_value l (parsed j) h in
        fields_step t before h h2 _ (l.raw_set_h (h2.entries t) k v) k j fs v th d (
          fields-Decoded fs t (before ++ (k, v) ∷ [])
            (put_table t (l.raw_set_h (h2.entries t) k v) h2) ps (omega (arith, d.1))
            (set_named t before h h2 k j v th nn at (Differ-head before k (keys fs) new) d)
            (Differ-step before k v (keys fs) new apart))
