-- ===== src/Json/Decoding.antt =====
-- pkg/core/json/json.go Decode, DecodeValue and the Lua functions. `Parsed` is an `interface{}`, by
-- the types that DecodeValue tells apart; a map is its entries in the order of the `range` loop.
use drlee.Prelude.{ℕ, suc, String, Bool, Option, none, some, List, [], ◌∷◌, ◌==◌, if◌then◌else◌}
use drlee.Prelude.Int.{ℤ}
use drlee.Prelude.Result.{Result, ok, raise, ◌>>=◌}
use drlee.Time.{Time, milliseconds}
use drlee.Reply.{unix_nano}
use drlee.Lua.{LValue, nil, bool, number, string, table}
use drlee.Json.{Json, out_of_fuel, fails, gives, Error, Given, encode}

mutual
  pub data Parsed (F : Type 0) : Type 0 where
    nil_value : Parsed F
    bool_value : Bool → Parsed F
    float64 : F → Parsed F
    int64 : ℤ → Parsed F
    time_value : Time → Parsed F
    string_value : String → Parsed F
    number_text : String → Parsed F
    slice : ParsedItems F → Parsed F
    map_value : ParsedFields F → Parsed F
    other_type : Parsed F

  pub data ParsedItems (F : Type 0) : Type 0 where
    no_items : ParsedItems F
    item : Parsed F → ParsedItems F → ParsedItems F

  pub data ParsedFields (F : Type 0) : Type 0 where
    no_fields : ParsedFields F
    field : String → Parsed F → ParsedFields F → ParsedFields F

abbrev pub Entries : Type 0 → Type 0
Entries F = List (LValue F × LValue F)

-- What each table holds, in the order of Next, and the next reference.
pub record Heap (F : Type 0) : Type 0 where
  pub entries : ℕ → Entries F
  pub next : ℕ

abbrev pub put_table : {F : Type 0} → ℕ → Entries F → Heap F → Heap F
put_table t es h = record h { entries = λ u. if u == t then es else h.entries u }

-- L.CreateTable
abbrev pub create_table : {F : Type 0} → Heap F → Heap F
create_table h = record (put_table h.next [] h) { next = suc h.next }

-- gopher-lua's Append and RawSetH on what a table holds, and LNumber of an integer
pub record LuaTables (F : Type 0) : Type 0 where
  pub append : Entries F → LValue F → Entries F
  pub raw_set_h : Entries F → String → LValue F → Entries F
  pub from_int : ℤ → F

module _ {F : Type 0} (l : LuaTables F) where
  unfoldable mutual
    pub decode_value : Parsed F → Heap F → LValue F × Heap F
    decode_value nil_value h = (nil, h)
    decode_value (bool_value b) h = (bool b, h)
    decode_value (float64 x) h = (number x, h)
    decode_value (int64 n) h = (number (l.from_int n), h)
    decode_value (time_value t) h = (number (l.from_int (milliseconds (unix_nano t))), h)
    decode_value (string_value s) h = (string s, h)
    decode_value (number_text s) h = (string s, h)
    decode_value (slice xs) h = (table h.next, decode_items xs h.next (create_table h))
    decode_value (map_value fs) h = (table h.next, decode_fields fs h.next (create_table h))
    decode_value other_type h = (nil, h)

    -- the loops over a slice and over a map, into the table `t`
    pub decode_items : ParsedItems F → ℕ → Heap F → Heap F
    decode_items no_items t h = h
    decode_items (item x xs) t h =
        let (v, h') = decode_value x h in
        decode_items xs t (put_table t (l.append (h'.entries t) v) h')

    pub decode_fields : ParsedFields F → ℕ → Heap F → Heap F
    decode_fields no_fields t h = h
    decode_fields (field k x fs) t h =
        let (v, h') = decode_value x h in
        decode_fields fs t (put_table t (l.raw_set_h (h'.entries t) k v) h')

  -- Decode; `unmarshal` is json.Unmarshal
  unfoldable pub decode :
      (String → Result (Parsed F)) → String → Heap F → Result (LValue F × Heap F)
  decode unmarshal data' h = unmarshal data' >>= λ x. ok (decode_value x h)

  -- lJSONDecode; `text` is LValue.String
  unfoldable pub l_json_decode :
      (LValue F → String)
      → (String → Result (Parsed F))
      → List (LValue F)
      → Heap F
      → Result (LValue F × Heap F)
  unfolding decode
  l_json_decode text unmarshal (v ∷ []) h = decode unmarshal (text v) h
  l_json_decode text unmarshal args h = raise "json.decode(string): takes one argument"

-- Encode, on the fuel of the encoder: no bytes for nil. `print` writes a tree out, and `message` is
-- the text of an error, as json.Marshal wraps it.
unfoldable pub encode_text :
    {F : Type 0}
    → (Json F → String)
    → (Error → String)
    → Given F
    → ℕ
    → LValue F
    → Option (Result String)
encode_text print message g fuel nil = some (ok "")
encode_text print message g fuel v = elim (encode g fuel [] v) [
  | out_of_fuel ↦ none
  | fails e ↦ some (raise (message e))
  | gives j _ ↦ some (ok (print j))
]

-- lJSONEncode
unfoldable pub l_json_encode :
    {F : Type 0}
    → (Json F → String)
    → (Error → String)
    → Given F
    → ℕ
    → List (LValue F)
    → Option (Result String)
unfolding encode_text
l_json_encode print message g fuel (v ∷ []) = encode_text print message g fuel v
l_json_encode print message g fuel args = some (raise "json.encode(table): takes one argument")
