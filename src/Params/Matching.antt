-- ===== src/Params/Matching.antt =====
-- pkg/core/helpers/params/params.go: which frames Check accepts, and what it makes of the others.
use drlee.Prelude.{
  ℕ, zero, suc, ◌-◌, ◌≤◌, String, ◌≡◌, refl, ap, ◌∙◌, true, false, Option, none, some, List, [],
  ◌∷◌, ◌++◌, length, ltb, arith,
}
use drlee.Prelude.Result.{ok, raise, panic, ◌>>=◌}
use drlee.Lua.{
  LType, string_type, LValue, nil, bool, number, string, function, user_data, table, type_of,
  same_type,
}
use drlee.Params.{
  get, Param, any_param, number_param, string_param, bool_param, function_param, table_param,
  user_data_param, param_type, set_value, assign_all, check,
}

module _ {F : Type 0} where
  -- the value of a parameter: Value(), Table() and so on
  abbrev pub pointer : (ℕ → LValue F) → Option ℕ → LValue F
  pointer f none = nil
  pointer f (some r) = f r

  abbrev pub read : Param F → LValue F
  read (any_param v) = v
  read (number_param x) = number x
  read (string_param s) = string s
  read (bool_param b) = bool b
  read (function_param r) = pointer function r
  read (table_param r) = pointer table r
  read (user_data_param r) = pointer user_data r

  -- An argument of the type that the parameter names is stored, without a panic.
  set_value-read :
      (t : Param F) (v : LValue F)
      → same_type (type_of v) (param_type t) ≡ true
      → (t' : Param F) × (set_value t v ≡ ok t') × (read t' ≡ v) × (param_type t' ≡ param_type t)
  unfolding set_value param_type
  set_value-read (any_param _) v h = (any_param v, refl, refl, refl)
  set_value-read (number_param _) (number x) h = (number_param x, refl, refl, refl)
  set_value-read (string_param _) (string s) h = (string_param s, refl, refl, refl)
  set_value-read (bool_param _) (bool b) h = (bool_param b, refl, refl, refl)
  set_value-read (function_param _) (function f) h = (function_param (some f), refl, refl, refl)
  set_value-read (table_param _) (table f) h = (table_param (some f), refl, refl, refl)
  set_value-read (user_data_param _) (user_data f) h = (user_data_param (some f), refl, refl, refl)
  set_value-read t v h = cc

  -- The next `n` arguments have the types of the first `n` parameters.
  abbrev pub AreTyped : ℕ → ℕ → List (Param F) → List (LValue F) → Type 0
  AreTyped idx zero ts frame = Unit
  AreTyped idx (suc n) [] frame = false ≡ true
  AreTyped idx (suc n) (t ∷ ts) frame =
      (same_type (type_of (get idx frame)) (param_type t) ≡ true) × AreTyped (suc idx) n ts frame

  -- The first `n` parameters hold the next `n` arguments; the others are as they were.
  abbrev pub Holds : ℕ → ℕ → List (Param F) → List (Param F) → List (LValue F) → Type 0
  Holds idx zero ts ts' frame = ts' ≡ ts
  Holds idx (suc n) (t ∷ ts) (t' ∷ ts') frame =
      (read t' ≡ get idx frame) × Holds (suc idx) n ts ts' frame
  Holds idx (suc n) _ _ frame = false ≡ true

  -- All parameters get an argument of their type, and there is an argument more.
  abbrev pub Overflows : ℕ → ℕ → List (Param F) → List (LValue F) → Type 0
  Overflows idx zero ts frame = false ≡ true
  Overflows idx (suc n) [] frame = Unit
  Overflows idx (suc n) (t ∷ ts) frame =
      (same_type (type_of (get idx frame)) (param_type t) ≡ true) × Overflows (suc idx) n ts frame

  module _ (bad : ℕ → LType → LType → String) where
    assign_all_overflow :
        (idx n : ℕ) (ts : List (Param F)) (frame : List (LValue F))
        → Overflows idx n ts frame
        → assign_all bad idx n ts frame ≡ panic
    unfolding assign_all
    assign_all_overflow idx zero ts frame h = cc
    assign_all_overflow idx (suc n) [] frame h = refl
    assign_all_overflow idx (suc n) (t ∷ ts) frame (h, hs) =
        let (t', e, r, _) = set_value-read t (get idx frame) h in
        rw (h, e, assign_all_overflow (suc idx) n ts frame hs) refl

    get-last :
        (args : List (LValue F)) (v : LValue F) → get (suc (length args)) (args ++ v ∷ []) ≡ v
    unfolding get
    get-last [] v = refl
    get-last (a ∷ args) v = get-last args v

    length-last :
        (args : List (LValue F)) (v : LValue F) → length (args ++ v ∷ []) ≡ suc (length args)
    length-last [] v = refl
    length-last (a ∷ args) v = ap suc (length-last args v)

    -- what Check does with arguments and a callback behind them
    check-callback :
        (few : String) (required : ℕ) (ts : List (Param F)) (args : List (LValue F)) (f : ℕ)
        → required ≤ length args
        → check few bad 1 required ts (args ++ function f ∷ []) ≡ (
            assign_all bad 1 (length args) ts (args ++ function f ∷ []) >>= λ ts'.
            ok (function f, ts'))
    unfolding check
    check-callback few required ts args f h =
        let room : ltb (length args) required ≡ false = ground arith in
        let same : suc (length args) - 1 - 0 ≡ length args = omega arith in
        rw (length-last args (function f), get-last args (function f), check, same, room) refl

    -- A call with a callback and with an argument more than there are parameters, when the others
    -- have their types, makes Check panic: it does not raise a Lua error.
    pub check_overflow :
        (few : String) (required : ℕ) (ts : List (Param F)) (args : List (LValue F)) (f : ℕ)
        → required ≤ length args
        → Overflows 1 (length args) ts (args ++ function f ∷ [])
        → check few bad 1 required ts (args ++ function f ∷ []) ≡ panic
    check_overflow few required ts args f h over =
        check-callback few required ts args f h
        ∙ (rw (assign_all_overflow 1 (length args) ts (args ++ function f ∷ []) over) refl)

    -- The arguments of rpc.call, a name, a message of any type and a callback: Check refuses every
    -- message that is not a string.
    pub any_refuses :
        (few name default : String) (v : LValue F) (f : ℕ)
        → same_type (type_of v) string_type ≡ false
        → check few bad 1 2
            (string_param default ∷ any_param nil ∷ table_param none ∷ [])
            (string name ∷ v ∷ function f ∷ [])
          ≡ raise (bad 2 string_type (type_of v))
    unfolding check assign_all get param_type set_value
    any_refuses few name default v f h = rw h refl
