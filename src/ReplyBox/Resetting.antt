-- ===== src/ReplyBox/Resetting.antt =====
-- What `Reset` does to the watchers that it finds.
use drlee.Prelude.{ℕ, String, ◌≡◌, refl, true, some, [], ◌∷◌, arith, str_eq, Bool-cases, inl, inr}
use drlee.Prelude.Dict.{Dict, lookup}
use drlee.ReplyBox.{
  Watch, ReplyBox, Outcome, goes, waits, blocks, panics, receive, nil, reset, close_all, update,
}

-- the box after one `close`
abbrev closed_at : ℕ → ReplyBox → ReplyBox
closed_at ch b = record b { chans = update b.chans ch (record (b.chans ch) { closed = true }) }

close_all-keeps :
    (m : Dict Watch) (b b' : ReplyBox)
    → close_all m b ≡ goes b'
    → (c : ℕ)
    → ((b'.chans c).buf ≡ (b.chans c).buf)
      × ((b.chans c).closed ≡ true → (b'.chans c).closed ≡ true)
unfolding close_all
close_all-keeps [] b b' e c = (ground arith, λ h. ground arith)
close_all-keeps ((id, w) ∷ m) b b' e c =
    let rest = close_all-keeps m (closed_at w.ch b) b' (ground arith) c in
    (ground (arith, rest.0), λ h. rest.1 (ground arith))

close_all-closes :
    (m : Dict Watch) (b b' : ReplyBox) (id : String) (w : Watch)
    → lookup id m ≡ some w
    → close_all m b ≡ goes b'
    → (b'.chans w.ch).closed ≡ true
unfolding close_all lookup
close_all-closes [] b b' id w e r = cc
close_all-closes ((j, x) ∷ m) b b' id w e r = elim (Bool-cases (str_eq j id)) [
  | inl here ↦ (close_all-keeps m (closed_at x.ch b) b' (ground arith) w.ch).1 (ground arith)
  | inr away ↦ close_all-closes m (closed_at x.ch b) b' id w (ground arith) (ground arith)
]

-- `Reset` closes the channel of every registered watcher: one that still waits receives nil, which
-- no caller of `Watch` checks for; and the map is empty.
pub reset_wakes_with_nil :
    (b b' : ReplyBox) (id : String) (w : Watch)
    → lookup id b.replies ≡ some w
    → (b.chans w.ch).buf ≡ []
    → reset b ≡ goes b'
    → (receive w.ch b' ≡ nil) × (b'.replies ≡ [])
unfolding reset receive
reset_wakes_with_nil b b' id w e q r = go (close_all b.replies b) refl r
  where
    go :
        (o : Outcome)
        → close_all b.replies b ≡ o
        → (elim o [
          | goes c ↦ goes (record c { replies = [] })
          | waits ↦ waits
          | blocks ↦ blocks
          | panics ↦ panics
        ])
          ≡ goes b'
        → (receive w.ch b' ≡ nil) × (b'.replies ≡ [])
    go (goes c) k h =
        ground
          (arith, close_all-keeps b.replies b c k w.ch, close_all-closes b.replies b c id w e k)
    go waits k h = cc
    go blocks k h = cc
    go panics k h = cc
