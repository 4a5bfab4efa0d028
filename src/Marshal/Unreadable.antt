-- ===== src/Marshal/Unreadable.antt =====
-- pkg/core/helpers/marshal.go: a slice of pointers to structs can be written but not read.
use drlee.Prelude.{
  ℕ, suc, ◌+◌, ◌≤◌, String, Bool, true, false, List, [], ◌∷◌, Option, some, ◌≡◌, refl, length,
  arith, ◌∙◌, subst, if◌then◌else◌,
}
use drlee.Lua.{user_data_type, table_type}
use drlee.Marshal.Types.{
  slice_of, ptr_to, Fields, Val, Vals, Tree, nil, table, Log, new_table, raw_set_int, Go, Tables,
  Outcome, gives, panics, ◌>>=◌, has_user_data, type_of, zero_val,
}
use drlee.Marshal.Typing.{lua_type, marshal_value-lua_type}
use drlee.Marshal.Copying.{is_nil, TablesLaws}
use drlee.Marshal.Writing.{marshal_slice, marshal_value, struct_to_table}
use drlee.Marshal.Reading.{unmarshal_slice, unmarshal_value}

bind-gives :
    {X Y : Type 0} (o : Outcome X) (k : X → Outcome Y) (y : Y)
    → (o >>= k) ≡ gives y
    → (x : X) × ((o ≡ gives x) × (k x ≡ gives y))
bind-gives (gives x) k y e = (x, (refl, e))
bind-gives o k y e = cc

module _ {F A X : Type 0} (h : Tables F A) (laws : TablesLaws h) (m : X → Outcome (Tree F A))
    (some_value : (x : X) (lv : Tree F A) → m x ≡ gives lv → is_nil lv ≡ false) where
  -- the loop over a slice leaves what stood up to `i`, and appends
  marshal_slice-keeps :
      (i : ℕ) (xs : List X) (log log' : Log F A)
      → h.len log ≡ i
      → marshal_slice m i xs log ≡ gives log'
      → ((j : ℕ) → j ≤ i → h.raw_get_int log' j ≡ h.raw_get_int log j)
        × (h.len log' ≡ i + length xs)
  unfolding marshal_slice
  marshal_slice-keeps i [] log log' hl e =
      let same : log ≡ log' = cc in rw (← same) ((λ j hj. refl), omega arith)
  marshal_slice-keeps i (x ∷ xs) log log' hl e =
      let (lv, (em, er)) = bind-gives (m x) _ log' e in
      let hl' : h.len (raw_set_int log (suc i) lv) ≡ suc i =
        subst (λ n. h.len (raw_set_int log (suc n) lv) ≡ suc n) hl
          (laws.len_append log lv (some_value x lv em)) in
      let (kept, grown) = marshal_slice-keeps (suc i) xs (raw_set_int log (suc i) lv) log' hl' er in
      (
        (λ j hj. kept j (omega arith) ∙ laws.get_int_other log j (suc i) lv (λ same. omega arith)),
        omega arith,
      )

  -- the first element is the first of the table, whose Len is not 0
  first_of :
      (x : X) (xs : List X) (log : Log F A)
      → marshal_slice m 0 (x ∷ xs) new_table ≡ gives log
      → (lv : Tree F A) × ((m x ≡ gives lv)
          × ((h.raw_get_int log 1 ≡ lv) × (h.len log ≡ suc (length xs))))
  unfolding marshal_slice
  first_of x xs log e =
      let (lv, (em, er)) = bind-gives (m x) _ log e in
      let hl : h.len (raw_set_int new_table 1 lv) ≡ 1 =
        subst (λ n. h.len (raw_set_int new_table (suc n) lv) ≡ suc n) laws.len_new
          (laws.len_append new_table lv (some_value x lv em)) in
      let (kept, grown) = marshal_slice-keeps 1 xs (raw_set_int new_table 1 lv) log hl er in
      (lv, (em, ((kept 1 (omega arith) ∙ laws.get_int_same new_table 1 lv), omega arith)))

typed-some :
    {F A : Type 0} (b : Bool) (lv : Tree F A)
    → some (if b then user_data_type else table_type) ≡ some (type_of lv)
    → is_nil lv ≡ false
typed-some true nil e = cc
typed-some false nil e = cc
typed-some b (table log) e = refl
typed-some b lv e = refl

pointer-some :
    {F N A : Type 0} (g : Go F N A) (tags : List String) (fs : Fields) (x : Val N (ptr_to fs))
    (lv : Tree F A)
    → marshal_value g tags (ptr_to fs) x ≡ gives lv
    → is_nil lv ≡ false
unfolding lua_type
pointer-some g tags fs x lv e =
    typed-some (has_user_data tags) lv (marshal_value-lua_type g tags (ptr_to fs) x lv e)

else_of : {X : Type 0} (b : Bool) (p q r : X) → b ≡ false → (if b then p else q) ≡ r → q ≡ r
else_of true p q r e h = cc
else_of false p q r e h = h

struct-is_table :
    {F N A : Type 0} (g : Go F N A) (tags : List String) (fs : Fields) (x : Vals N fs)
    (v : Tree F A)
    → has_user_data tags ≡ false
    → unfold Val in
      (marshal_value g tags (ptr_to fs) (some x) ≡ gives v) → (log : Log F A) × (v ≡ table log)
unfolding Val marshal_value
struct-is_table g tags fs x v et e =
    let (log, (es, ev)) =
      bind-gives (struct_to_table g fs x new_table) (λ log. gives (table log)) v
        (else_of (has_user_data tags) _ _ _ et e) in
    (log, cc)

table-panics :
    {F N A : Type 0} (g : Go F N A) (h : Tables F A) (tags : List String) (fs : Fields)
    (can_set : Bool) (old : Val N (slice_of (ptr_to fs))) (log log1 : Log F A) (n : ℕ)
    → has_user_data tags ≡ false
    → h.len log ≡ suc n
    → h.raw_get_int log 1 ≡ table log1
    → unmarshal_value g h tags (slice_of (ptr_to fs)) can_set old (table log) ≡ panics
unfolding Val unmarshal_value unmarshal_slice zero_val
table-panics g h tags fs s old log log1 n et en e1 = rw (en, e1, et)

-- A slice whose first element is a pointer to a struct, in a field without the tag `UserData`: when
-- Marshal makes a Lua value of it, Unmarshal panics on that value, in every place it is read into.
pub unmarshal_value-slice_of_pointers :
    {F N A : Type 0} (g : Go F N A) (h : Tables F A)
    → TablesLaws h
    → (tags : List String) (fs : Fields) (can_set : Bool) (old xs : List (Val N (ptr_to fs)))
      (x : Vals N fs) (lv : Tree F A)
    → has_user_data tags ≡ false
    → unfold Val in
      (marshal_value g tags (slice_of (ptr_to fs)) (some x ∷ xs) ≡ gives lv)
      → unfold Val in (unmarshal_value g h tags (slice_of (ptr_to fs)) can_set old lv) ≡ panics
unfolding Val marshal_value
unmarshal_value-slice_of_pointers {F} {N} {A} g h laws tags fs s old xs x lv et e =
    let m : Option (Vals N fs) → Outcome (Tree F A) = marshal_value g tags (ptr_to fs) in
    let (log, (em, elv)) = bind-gives (marshal_slice m 0 (some x ∷ xs) new_table) _ lv e in
    let (v, (e1, (e2, e3))) =
      first_of h laws m (λ p lv h. pointer-some g tags fs p lv h) (some x) xs log em in
    let (log1, ev) = struct-is_table g tags fs x v et e1 in
    let e4 : h.raw_get_int log 1 ≡ table log1 = e2 ∙ ev in
    let elv' : lv ≡ table log = cc in
    rw (elv') (table-panics g h tags fs s old log log1 (length xs) et e3 e4)
