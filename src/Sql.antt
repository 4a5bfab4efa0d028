-- ===== src/Sql.antt =====
-- pkg/core/sql/sql.go: the functions that a script calls on a connection or a transaction. A frame
-- is the list of the arguments on Lua's stack, `L.Get(1)` first. What is put off to a goroutine is
-- in Sql/Running. The database, url.Parse and CheckString of gopher-lua are parameters.
pub mod Answers
pub mod Bytes
pub mod Running
use drlee.Prelude.{
  ℕ, zero, suc, ◌+◌, String, Bool, true, false, Option, none, some, List, [], ◌∷◌, ◌++◌, length,
  ltb, concat, if◌then◌else◌, get_elem?,
}
use drlee.Prelude.Result.{Result, ok, raise, panic, fatal, ◌>>=◌}
use drlee.Lua.{LType, LValue, nil, string, user_data}
use drlee.Context.{Returned, fails, gives}
use drlee.Marshal.{Tables, GoValue, Outcome, out_of_fuel, not_supported, unmarshal_to_map}
use drlee.Marshal as M

-- L.Get(i + 1)
abbrev pub get : {F : Type 0} → ℕ → List (LValue F) → LValue F
get i frame = elim (get_elem? frame i) [ none ↦ nil | some v ↦ v ]

-- L.Get(L.GetTop())
abbrev pub last : {F : Type 0} → List (LValue F) → LValue F
last [] = nil
last (v ∷ []) = v
last (v ∷ w ∷ vs) = last (w ∷ vs)

abbrev pub from_third : {F : Type 0} → List (LValue F) → List (LValue F)
from_third (_ ∷ _ ∷ vs) = vs
from_third _ = []

-- MustUnmarshalToMap. `type_name` is the String of a type; a value that is deeper than the stack
-- allows stops the process.
unfoldable pub must_unmarshal_to_map :
    {F : Type 0} → (LType → String) → Tables F → ℕ → LValue F → Result (GoValue F)
must_unmarshal_to_map type_name g stack v = elim (unmarshal_to_map g stack v) [
  | out_of_fuel ↦ fatal
  | not_supported t ↦ raise (concat (type_name t) " is not supported")
  | M.gives x ↦ ok x
]

-- the loop over the arguments from 3 on, all but the last
unfoldable pub unmarshal_arguments :
    {F : Type 0} → (LValue F → Result (GoValue F)) → List (LValue F) → Result (List (GoValue F))
unmarshal_arguments un [] = ok []
unmarshal_arguments un (v ∷ []) = ok []
unmarshal_arguments un (v ∷ w ∷ vs) =
    un v >>= λ arg. unmarshal_arguments un (w ∷ vs) >>= λ args. ok (arg ∷ args)

-- What query and exec leave to a goroutine: the statement, its arguments and the callback.
pub record Statement (F : Type 0) : Type 0 where
  pub query : String
  pub args : List (GoValue F)
  pub cb : LValue F

-- query and exec, up to `ec.Call`. `make` panics on a negative length.
unfoldable pub statement_of :
    {F : Type 0}
    → (LValue F → Result String)
    → (LValue F → Result (GoValue F))
    → List (LValue F)
    → Result (Statement F)
unfolding unmarshal_arguments
statement_of check_string un frame = check_string (get 1 frame) >>= λ query.
    if ltb (length frame) 3
    then panic
    else unmarshal_arguments un (from_third frame) >>= λ args.
        ok (record { query = query; args = args; cb = last frame })

-- The Go value behind an object of the library, and what a userdata holds: such an object, or a
-- value as it is.
pub data Native : Type 0 where
  conn : ℕ → Native
  tx : ℕ → ℕ → Native
  foreign : Native

pub data Held : Type 0 where
  object_of : Native → Held
  raw : Native → Held

-- object.Value and the assertion to *lConn, which panics
unfoldable pub conn_of : Held → Result ℕ
conn_of (object_of (conn c)) = ok c
conn_of (object_of _) = panic
conn_of (raw _) = raise "expected GoObject"

-- the assertion to *lTx: the connection and the transaction
unfoldable pub tx_of : Held → Result (ℕ × ℕ)
tx_of (raw (tx c t)) = ok (c, t)
tx_of _ = raise "expected tx"

abbrev pub reference_of : {F : Type 0} → LValue F → Option ℕ
reference_of (user_data u) = some u
reference_of _ = none

-- CheckUserData(1), which raises `bad_argument`
abbrev pub check_user_data : {F : Type 0} → (ℕ → Held) → String → List (LValue F) → Result Held
check_user_data held bad_argument frame = elim (reference_of (get 0 frame)) [
  | none ↦ raise bad_argument
  | some u ↦ ok (held u)
]

module _ {F : Type 0} (held : ℕ → Held) (bad_argument : String) where
  -- checkConn
  unfoldable pub check_conn : List (LValue F) → Result ℕ
  unfolding conn_of
  check_conn frame = check_user_data held bad_argument frame >>= conn_of

  -- checkTx
  unfoldable pub check_tx : List (LValue F) → Result (ℕ × ℕ)
  unfolding tx_of
  check_tx frame = check_user_data held bad_argument frame >>= tx_of

  -- lTxCommit and lTxRollback: the transaction, and the callback of what is left to a goroutine
  unfoldable pub tx_end : List (LValue F) → Result (ℕ × LValue F)
  unfolding check_tx
  tx_end frame = check_tx frame >>= λ (c, t). ok (t, get 1 frame)

  -- lConnBegin and lConnClose
  unfoldable pub conn_call : List (LValue F) → Result (ℕ × LValue F)
  unfolding check_conn
  conn_call frame = check_conn frame >>= λ c. ok (c, get 1 frame)

  module _ (check_string : LValue F → Result String) (un : LValue F → Result (GoValue F)) where
    -- lConnQuery and lConnExec
    unfoldable pub conn_statement : List (LValue F) → Result (ℕ × Statement F)
    unfolding check_conn statement_of
    conn_statement frame =
        check_conn frame >>= λ c. statement_of check_string un frame >>= λ s. ok (c, s)

    -- lTxQuery and lTxExec
    unfoldable pub tx_statement : List (LValue F) → Result (ℕ × Statement F)
    unfolding check_tx statement_of
    tx_statement frame =
        check_tx frame >>= λ (c, t). statement_of check_string un frame >>= λ s. ok (t, s)

-- the function that lConnBegin leaves to a goroutine: what the new userdata holds
unfoldable pub begin : ℕ → Returned ℕ → Returned Held
begin c (fails e) = fails e
begin c (gives t) = gives (object_of (tx c t))

-- lOpen: the parts of the URL, and the name that the driver is opened with
pub record Url : Type 0 where
  pub scheme : String
  pub user : String
  pub host : String
  pub path : String
  pub query : String

unfoldable pub data_source_name : Url → String
data_source_name u =
    concat u.user (concat "@tcp(" (concat u.host (concat ")" (concat u.path (concat "?" u.query)))))

-- lOpen's function: the resource is guarded only once the driver has opened
unfoldable pub open_conn : (String → String → Returned ℕ) → Url → Returned Held
unfolding data_source_name
open_conn open' u = elim (open' u.scheme (data_source_name u)) [
  | fails e ↦ fails e
  | gives c ↦ gives (object_of (conn c))
]
