-- ===== src/Stream/Transfer.antt =====
-- pkg/core/stream/reader.go: which bytes a read gives.
use drlee.Prelude.{
  ℕ, zero, suc, ◌-◌, ◌≤◌, String, Option, none, some, List, [], ◌∷◌, ◌++◌, length, ◌≡◌, ◌≢◌, refl,
  arith, ap,
}
use drlee.Prelude.Int.{pos}
use drlee.Prelude.Result.{ok}
use drlee.Stream.{zeros, fill, read, ReadError, eof, failed, read_result}

fill-zeros :
    (bytes : List ℕ) (size : ℕ)
    → length bytes ≤ size
    → fill bytes (zeros size) ≡ bytes ++ zeros (size - length bytes)
unfolding fill zeros
fill-zeros [] size h = let e : size - 0 ≡ size = omega arith in rw (e) refl
fill-zeros (b ∷ bs) zero h = grind arith
fill-zeros (b ∷ bs) (suc size) h =
    let e : suc size - suc (length bs) ≡ size - length bs = omega arith in
    rw (e) (ap (λ l. b ∷ l) (fill-zeros bs size (omega arith)))

-- A read that gives no more bytes than asked for passes them to the callback with their number, at
-- the end of the file too, but followed by zeros up to the size that was asked for.
pub read-fill :
    (size : ℕ) (bytes : List ℕ) (err : Option ReadError)
    → length bytes ≤ size
    → ((e : String) → err ≢ some (failed e))
    → read (pos size) bytes err
      ≡ ok (read_result (bytes ++ zeros (size - length bytes)) (length bytes))
unfolding read
read-fill size bytes none h he = rw (fill-zeros bytes size h) refl
read-fill size bytes (some eof) h he = rw (fill-zeros bytes size h) refl
read-fill size bytes (some (failed e)) h he = elim (he e refl) [ ]
