-- ===== src/Broadcast/Callback.antt =====
-- pkg/core/rpc/rpc.go lBroadcast: what the callback of a broadcast gets.
use drlee.Prelude.{String, ◌≡◌, refl, ◌∙◌, true, false, none, some, arith, List, [], ◌∷◌, ◌++◌}
use drlee.Message.{Response}
use drlee.Broadcast.{
  Arguments, with_error, with_value, Entry, error_entry, body_entry, and_entry, broadcast_arguments,
}

module _ {V : Type 0} (decode : String → Arguments V) where
  abbrev pub body_of : Arguments V → Arguments (Entry V)
  body_of (with_error m) = with_error m
  body_of (with_value v) = with_value (body_entry v)

  -- the entry of one response: its error, or its body if that can be read
  abbrev pub entry_of : Response → Arguments (Entry V)
  entry_of res = elim res.error [
    | some message ↦ with_value (error_entry message)
    | none ↦ body_of (decode res.body)
  ]

  -- The responses can all be read, and these are their entries.
  abbrev pub Reads : List Response → List (Entry V) → Type 0
  Reads [] [] = Unit
  Reads (res ∷ list) (e ∷ es) = (entry_of res ≡ with_value e) × Reads list es
  Reads _ _ = false ≡ true

  arguments_cons :
      (res : Response) (list : List Response) (e : Entry V)
      → entry_of res ≡ with_value e
      → broadcast_arguments decode (res ∷ list) ≡ and_entry e (broadcast_arguments decode list)
  unfolding broadcast_arguments
  arguments_cons res list e h = ground arith

  arguments_bad :
      (res : Response) (list : List Response) (m : String)
      → entry_of res ≡ with_error m
      → broadcast_arguments decode (res ∷ list) ≡ with_error m
  unfolding broadcast_arguments
  arguments_bad res list m h = ground arith

  -- If every response is an error or has a body that can be read, the callback gets one entry for
  -- each, in order. If one that cannot be read follows, the callback gets its error alone, and none
  -- of the responses before it or behind it.
  pub broadcast_arguments_lem :
      (xs : List Response) (es : List (Entry V)) (bad : Response) (ys : List Response) (m : String)
      → Reads xs es
      → entry_of bad ≡ with_error m
      → (broadcast_arguments decode xs ≡ with_value es)
        × (broadcast_arguments decode (xs ++ bad ∷ ys) ≡ with_error m)
  broadcast_arguments_lem [] [] bad ys m h k =
      (unfold broadcast_arguments in refl, arguments_bad bad ys m k)
  broadcast_arguments_lem [] (e ∷ es) bad ys m h k = cc
  broadcast_arguments_lem (res ∷ xs) [] bad ys m h k = cc
  broadcast_arguments_lem (res ∷ xs) (e ∷ es) bad ys m (h, hs) k =
      let (a, b) = broadcast_arguments_lem xs es bad ys m hs k in
      (
        arguments_cons res xs e h ∙ (rw a refl),
        arguments_cons res (xs ++ bad ∷ ys) e h ∙ (rw b refl),
      )
