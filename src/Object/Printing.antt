-- ===== src/Object/Printing.antt =====
-- pkg/core/object/go_object.go MarshalJSON: the text of an object, put together from the texts of
-- json.Encode, which are arguments here, and not escaped.
use drlee.Prelude.{String, List, [], ◌∷◌, ◌++◌, none, some, concat}
use drlee.Prelude.Dict.{Dict}
use drlee.Prelude.Result.{Result, ok, ◌>>=◌}
use drlee.Lua.{LValue}
use drlee.Object.{Table, Object}

-- strings.Join(pairs, ",")
abbrev pub join : List String → String
join [] = ""
join (pair ∷ []) = pair
join (pair ∷ pairs) = concat pair (concat "," (join pairs))

module _ {F : Type 0} (encode : LValue F → Result String) where
  -- the loop over the properties, in its order
  unfoldable pub property_pairs : Dict (LValue F) → Result (List String)
  property_pairs [] = ok []
  property_pairs ((k, v) ∷ properties) = encode v >>= λ data'.
      property_pairs properties >>= λ pairs.
      ok (concat "\"" (concat k (concat "\":" data')) ∷ pairs)

  module _ {G : Type 0} (encode_table : Table F → Result String) where
    abbrev custom_pair : Object F G → Result (List String)
    custom_pair obj = elim obj.table [
      | none ↦ ok []
      | some t ↦ encode_table t >>= λ data'. ok (concat "\"customProperties\":" data' ∷ [])
    ]

    abbrev properties_pair : Object F G → Result (List String)
    properties_pair obj = elim obj.properties [
      | [] ↦ ok []
      | p ∷ ps ↦ property_pairs (p ∷ ps) >>= λ pairs.
          ok (concat "\"properties\":{" (concat (join pairs) "}") ∷ [])
    ]

    unfoldable pub marshal_json : Object F G → Result String
    unfolding property_pairs
    marshal_json obj = custom_pair obj >>= λ custom. properties_pair obj >>= λ properties.
        ok (concat "{" (concat (join (custom ++ properties)) "}"))
