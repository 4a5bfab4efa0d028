-- ===== src/Object/Access.antt =====
-- pkg/core/object/go_object.go: a write that is read again.
use drlee.Prelude.{
  String, ◌≡◌, sym, true, false, none, some, if◌then◌else◌, Bool-cases, inl, inr, arith, eq_refl,
  eq_iff, subst,
}
use drlee.Prelude.Dict.{lookup}
use drlee.Prelude.Result.{ok}
use drlee.Lua.{LValue, string}
use drlee.Object.{
  Table, is_string, raw_set_string, Interface, Object, get_custom, get_field, l_get, set_field,
  l_set,
}

is_string-eq : {F : Type 0} (key : String) (v : LValue F) → is_string key v ≡ true → v ≡ string key
is_string-eq key (string s) h = ground (arith, eq_iff s key)
is_string-eq key v h = cc

module _ {F G : Type 0} (to_string : LValue F → String) (i : Interface F G) (obj : Object F G)
    (t : Table F) where
  abbrev pub written : String → LValue F → Object F G
  written key v = record obj { table = some (raw_set_string key v t) }

  -- In an object with a custom table and no Go methods for access, a write under a key that names
  -- no property and no method ends without an error and without touching properties and methods.
  -- A read of any key then gives the value exactly if that key is the string that the written key
  -- prints as, and names nothing else; any other read gives what it gave before.
  pub l_get-l_set :
      (raw_key other v : LValue F)
      → i.object_get ≡ none
      → i.object_set ≡ none
      → obj.readonly ≡ false
      → obj.table ≡ some t
      → lookup (to_string raw_key) obj.properties ≡ none
      → lookup (to_string raw_key) obj.methods ≡ none
      → ((s : String) → to_string (string s) ≡ s)
      → (l_set to_string i raw_key v obj ≡ ok (written (to_string raw_key) v))
        × (l_get to_string i other (written (to_string raw_key) v)
            ≡ (if is_string (to_string raw_key) other then ok v else l_get to_string i other obj))
  unfolding l_get l_set set_field get_field get_custom
  l_get-l_set raw_key other v g s w h p m str = (
    ground arith,
    elim (Bool-cases (is_string (to_string raw_key) other)) [
      | inl q ↦ rw q (
          subst (λ k. l_get to_string i k (written (to_string raw_key) v) ≡ ok v)
            (sym (is_string-eq (to_string raw_key) other q))
            (ground (arith, str (to_string raw_key), eq_refl (to_string raw_key))))
      | inr q ↦ rw q (ground (arith))
    ],
  )
