-- ===== src/Marshal/RoundTrip.antt =====
-- Values of Go written to Lua and read back (pkg/core/helpers/marshal.go Marshal, Unmarshal).
use drlee.Prelude.{
  String, true, false, List, ◌∷◌, Option, none, some, ◌≡◌, refl, sym, ap, inl, inr, All-map, length,
  arith, ◌∙◌,
}
use drlee.Prelude.Int.{ℤ}
use drlee.Marshal.Types.{
  GoType, basic, duration, function_proto, map_of, slice_of, ptr_to, other, Fields, no_fields,
  field, of_number, of_string, of_bool, Basic, Val, Vals, number, string, bool, function, user_data,
  table, Log, new_table, raw_set_string, Go, Tables, gives, zero_val,
}
use drlee.Marshal.Copying.{TablesLaws, IsExact, IsNew, Copies, CopiesFields}
use drlee.Marshal.Slices.{Passes, slice-Passes}
use drlee.Marshal.Writing.{marshal_basic, marshal_value, struct_to_table}
use drlee.Marshal.Reading.{
  unmarshal_basic, unmarshal_value, table_to_struct, unmarshal_duration, set, unmarshal_proto,
  unbox_to,
}

module _ {F N A : Type 0} (g : Go F N A) (h : Tables F A) (laws : TablesLaws h) where
  duration-Passes :
      (x : ℤ)
      → g.parse_duration (g.duration_string x) ≡ some x
      → unmarshal_duration g true (string (g.duration_string x)) ≡ gives x
  unfolding unmarshal_duration set
  duration-Passes x e = rw (unmarshal_duration, e)

  unboxed :
      (fs : Fields) (x : Option (Vals N fs))
      → g.unbox fs (g.box fs x) ≡ some x
      → unbox_to g fs true (g.box fs x) ≡ gives x
  unfolding unbox_to set
  unboxed fs x e = rw (unbox_to, e)

  -- The fields are set in the table; the other names keep what they have.
  abbrev SetsFields : (fs : Fields) → Vals N fs → Vals N fs → Log F A → Type 0
  SetsFields fs os xs log =
      (log' : Log F A) × ((struct_to_table g fs xs log ≡ gives log')
        × (((k : String) → IsNew k fs → h.raw_get_string log' k ≡ h.raw_get_string log k)
            × (table_to_struct g h fs os log' ≡ gives xs)))

  mutual
    unfolding Val Copies IsNew marshal_value unmarshal_value unmarshal_duration set unmarshal_proto
        unmarshal_basic marshal_basic Basic IsExact

    value-Passes :
        (tags : List String) (t : GoType) (old x : Val N t)
        → Copies g tags t old x
        → Passes (marshal_value g tags t) (unmarshal_value g h tags t true old) x
    value-Passes tags (basic true b) old x (ed, ex) = cc
    value-Passes tags (basic false (of_number k)) old x (ed, ex) =
        (number (g.to_number k x), (refl, (refl, rw (ex))))
    value-Passes tags (basic false of_string) old x (ed, ex) = (string x, (refl, (refl, refl)))
    value-Passes tags (basic false of_bool) old x (ed, ex) = (bool x, (refl, (refl, refl)))
    value-Passes tags duration old x e =
        (string (g.duration_string x), (refl, (refl, duration-Passes x e)))
    value-Passes tags function_proto old x (p, e) =
        (function p, (ap (marshal_value g tags function_proto) e, (refl, sym (ap gives e))))
    value-Passes tags (map_of k v) old x e = cc
    value-Passes tags (slice_of t) old xs e =
        let (log, (e1, (e2, (e3, e4)))) =
          slice-Passes h laws (marshal_value g tags t)
            (unmarshal_value g h tags t true (zero_val g t)) 0 xs new_table laws.len_new
            (All-map _ _ xs (value-Passes tags t (zero_val g t)) e) in
        let e2' : h.len log ≡ length xs = omega arith in
        (table log, (rw (e1), (refl, rw (e2', e4))))
    value-Passes tags (ptr_to fs) none none (ed, ex) =
        (user_data (g.box fs none), (rw (ed), (refl, rw (ed, unboxed fs none ex))))
    value-Passes tags (ptr_to fs) (some os) none (ed, ex) =
        (user_data (g.box fs none), (rw (ed), (refl, rw (ed, unboxed fs none ex))))
    value-Passes tags (ptr_to fs) none (some xs) (ed, ex) =
        (user_data (g.box fs (some xs)), (rw (ed), (refl, rw (ed, unboxed fs (some xs) ex))))
    value-Passes tags (ptr_to fs) (some os) (some xs) (inl (ed, ex)) =
        (user_data (g.box fs (some xs)), (rw (ed), (refl, rw (ed, unboxed fs (some xs) ex))))
    value-Passes tags (ptr_to fs) (some os) (some xs) (inr (ed, ex)) =
        let (log, (e1, (e2, e3))) = fields_pass fs os xs new_table ex in
        (table log, (rw (ed, e1), (refl, rw (ed, e3))))
    value-Passes tags (other k) old x e = cc

    fields_pass :
        (fs : Fields) (os xs : Vals N fs) (log : Log F A)
        → CopiesFields g fs os xs
        → SetsFields fs os xs log
    fields_pass no_fields os xs log e = (log, (refl, ((λ k hk. refl), refl)))
    fields_pass (field name rest t fs) (o, os) (x, xs) log (inl (ed, ex), e) =
        let (log', (e1, (e2, e3))) = fields_pass fs os xs log e in
        (log', (rw (ed, e1), ((λ k hk. e2 k hk.1), rw (ed, e3, ex))))
    fields_pass (field name rest t fs) (o, os) (x, xs) log (inr (ed, (hn, ex)), e) =
        let (lv, (em, (en, eu))) = value-Passes (name ∷ rest) t o x ex in
        let (log', (e1, (e2, e3))) = fields_pass fs os xs (raw_set_string log name lv) e in
        let got : h.raw_get_string log' name ≡ lv = e2 name hn ∙ laws.get_string_same log name lv in
        (
          log',
          (
            rw (ed, em, e1),
            ((λ k hk. e2 k hk.1 ∙ laws.get_string_other log k name lv hk.0), rw (ed, got, eu, e3)),
          ),
        )
