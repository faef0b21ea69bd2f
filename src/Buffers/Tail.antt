-- ===== src/Buffers/Tail.antt =====
-- The tail buffer holds the end of all that was written to it.
use mathlib.Core.List.{append_assoc, append-nil}
use shepard.Base.{
  ℕ, zero, ◌+◌, ◌-◌, ◌≤◌, ◌<◌, ◌≡◌, sym, ap, ap₂, ◌∙◌, inl, inr, List, [], ◌∷◌, ◌++◌, arith, leb,
  ltb, length, drop, length-append, drop-append, drop_all, length-drop, Bool-cases,
}
use shepard.Buffers.{TailBuffer, write_tail}

-- The last `n` bytes.
abbrev pub last : ℕ → List ℕ → List ℕ
last n xs = drop (length xs - n) xs

abbrev pub write_all : TailBuffer → List (List ℕ) → TailBuffer
write_all b [] = b
write_all b (p ∷ ps) = write_all (write_tail b p) ps

abbrev pub stream : List (List ℕ) → List ℕ
stream [] = []
stream (p ∷ ps) = p ++ stream ps

drop-drop : (m n : ℕ) (xs : List ℕ) → drop m (drop n xs) ≡ drop (n + m) xs
drop-drop m zero xs = ap (λ (k : ℕ). drop k xs) (omega arith)
drop-drop zero (ℕ.suc n) [] = sym (drop_all (ℕ.suc n + zero) [] (omega arith))
drop-drop (ℕ.suc m) (ℕ.suc n) [] = sym (drop_all (ℕ.suc n + ℕ.suc m) [] (omega arith))
drop-drop m (ℕ.suc n) (x ∷ xs) =
    drop-drop m n xs ∙ ap (λ (k : ℕ). drop k (x ∷ xs)) {x = ℕ.suc (n + m)} (omega arith)

-- A chunk as long as the buffer replaces it.
last_long : (n : ℕ) (h p : List ℕ) → n ≤ length p → drop (length p - n) p ≡ last n (h ++ p)
last_long n h p e = sym (
    drop-append (length (h ++ p) - n) h p
    ∙ ap₂ ◌++◌ (drop_all _ h (omega (arith, length-append h p)))
        (ap (λ (k : ℕ). drop k p) (omega (arith, length-append h p))))

-- A shorter chunk pushes out what overflows.
last_short :
    (n : ℕ) (h p : List ℕ)
    → length p < n
    → drop (length (last n h) + length p - n) (last n h) ++ p ≡ last n (h ++ p)
last_short n h p e =
    let overflow = length (last n h) + length p - n in
    ap₂ ◌++◌
      (drop-drop overflow (length h - n) h
        ∙ ap (λ (k : ℕ). drop k h) (omega (arith, length-append h p, length-drop (length h - n) h)))
      (sym (ap (λ (k : ℕ). drop k p) {y = 0} (omega (arith, length-append h p))))
    ∙ sym (drop-append (length (h ++ p) - n) h p)

write_tail-last :
    (b : TailBuffer) (h p : List ℕ)
    → b.buf ≡ last b.limit h
    → (write_tail b p).buf ≡ last b.limit (h ++ p)
unfolding write_tail
write_tail-last b h p e = elim (Bool-cases (leb b.limit (length p))) [
  | inl long ↦ rw long (last_long b.limit h p (ground arith))
  | inr short ↦ rw short (elim (Bool-cases (ltb 0 (length b.buf + length p - b.limit))) [
    | inl over ↦ rw (over, e) (last_short b.limit h p (ground arith))
    | inr fits ↦ rw fits (no_overflow (ground arith) (ground arith))
  ])
]
  where
    no_overflow :
        length p < b.limit
        → length b.buf + length p - b.limit ≡ 0
        → b.buf ++ p ≡ last b.limit (h ++ p)
    no_overflow l z =
        ap (λ (k : ℕ). drop k b.buf ++ p) {x = 0} (sym z)
        ∙ ap (λ (x : List ℕ). drop (length x + length p - b.limit) x ++ p) e
        ∙ last_short b.limit h p l

limit-write_tail : (b : TailBuffer) (p : List ℕ) → (write_tail b p).limit ≡ b.limit
unfolding write_tail
limit-write_tail b p = ground arith

-- If the buffer holds the last `limit` bytes of a stream, or all of a shorter one, then so it does
-- after any further chunks.
pub write_all-last :
    (b : TailBuffer) (h : List ℕ) (ps : List (List ℕ))
    → b.buf ≡ last b.limit h
    → (write_all b ps).buf ≡ last b.limit (h ++ stream ps)
write_all-last b h [] e = e ∙ ap (last b.limit) (sym (append-nil h))
write_all-last b h (p ∷ ps) e =
    write_all-last (write_tail b p) (h ++ p) ps
      (rw (limit-write_tail b p) (write_tail-last b h p e))
    ∙ rw (limit-write_tail b p) (ap (last b.limit) (append_assoc h p (stream ps)))
