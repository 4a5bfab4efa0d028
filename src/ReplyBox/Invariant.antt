-- ===== src/ReplyBox/Invariant.antt =====
-- What holds of the reply box between two resets while every id is answered once: a channel carries
-- responses to its own id alone, and it is empty until its id was answered.
use drlee.Prelude.{
  ℕ, ◌<◌, String, ◌≡◌, refl, Bool, true, false, some, List, [], ◌∷◌, arith, ◌==◌, str_eq, ◌||◌, All,
  All-append, All-map, Bool-cases, inl, inr,
}
use drlee.Prelude.Dict.{lookup}
use drlee.Message.{RpcResponse}
use drlee.ReplyBox.{Chan, Watch, ReplyBox, Outcome, goes, waits, blocks, panics, register, update}

abbrev pub holds : String → List RpcResponse → Bool
holds id [] = false
holds id (res ∷ rest) = str_eq res.id id || holds id rest

abbrev pub contains : String → List String → Bool
contains id [] = false
contains id (x ∷ xs) = str_eq x id || contains id xs

abbrev pub Distinct : List RpcResponse → Type 0
Distinct [] = Unit
Distinct (res ∷ rest) = (holds res.id rest ≡ false) × Distinct rest

-- A watcher's channel was made for its id, exists, and is open.
pub record IsFor (chans : ℕ → Chan) (next : ℕ) (id : String) (ch : ℕ) : Type 0 where
  pub owner : (chans ch).owner ≡ id
  pub allocated : ch < next
  pub open_yet : (chans ch).closed ≡ false

-- What is in a channel, by the ids answered so far and the responses still queued.
pub record Fits (used : List String) (queue : List RpcResponse) (c : Chan) : Type 0 where
  pub unspent : contains c.owner used ≡ false → c.buf ≡ []
  pub queued : holds c.owner queue ≡ true → c.buf ≡ []
  pub addressed : All (λ res. res.id ≡ c.owner) c.buf

-- `used` holds every id that was ever handed to `Insert`.
pub record Inv (used : List String) (b : ReplyBox) : Type 0 where
  pub keyed :
      (id : String) (w : Watch) → lookup id b.replies ≡ some w → IsFor b.chans b.next id w.ch
  pub pending : All (λ w. IsFor b.chans b.next w.id w.ch) b.watch_ch
  pub distinct : Distinct b.insert_ch
  pub listed : All (λ res. contains res.id used ≡ true) b.insert_ch
  pub fits : (c : ℕ) → Fits used b.insert_ch (b.chans c)

abbrev pub Ensures : (ReplyBox → Type 0) → Outcome → Type 0
Ensures P (goes b) = P b
Ensures P waits = Unit
Ensures P blocks = ⊥
Ensures P panics = ⊥

pub at_update :
    (P : Chan → Type 0) (f : ℕ → Chan) (p c : ℕ) (v : Chan) → P v → P (f c) → P (update f p v c)
at_update P f p c v new old = elim (Bool-cases (p == c)) [
  | inl here ↦ rw here new
  | inr away ↦ rw away old
]

-- a new channel
IsFor-register :
    (b : ReplyBox) (made id : String) (ch : ℕ)
    → IsFor b.chans b.next id ch
    → IsFor (register made b).chans (register made b).next id ch
unfolding register
IsFor-register b made id ch f = record {
  owner = ground arith;
  allocated = ground arith;
  open_yet = ground arith;
}

pub register-Inv :
    (used : List String) (b : ReplyBox) (id : String) → Inv used b → Inv used (register id b)
unfolding register
register-Inv used b id v = record {
  keyed = λ j w e. IsFor-register b id j w.ch (v.keyed j w e);
  pending =
      All-append _ b.watch_ch _
        (All-map _ _ b.watch_ch (λ w. IsFor-register b id w.id w.ch) v.pending)
        (record { owner = ground arith; allocated = ground arith; open_yet = ground arith }, tt);
  distinct = v.distinct;
  listed = v.listed;
  fits = λ c.
      at_update (Fits used b.insert_ch) b.chans b.next c _
        (record { unspent = λ _. refl; queued = λ _. refl; addressed = tt }) (v.fits c);
}
