-- ===== src/Buffers/Prefix.antt =====
-- The log buffer holds the beginning of all that was written to it, and knows when more came.
use mathlib.Core.List.{append_assoc, append-nil}
use shepard.Base.{
  ℕ, ◌-◌, ◌<◌, ◌≡◌, refl, true, List, [], ◌∷◌, ◌++◌, arith, ℤ, is_pos, pos_part, ltb, length, take,
  length-append, take-append, take_all, length-take, All,
}
use shepard.Buffers.{LogBodyBuffer, new_log_body_buffer, write_log, bounded_log_body}
use shepard.Buffers.Tail.{stream}

abbrev pub write_all : LogBodyBuffer → List (List ℕ) → LogBodyBuffer
write_all b [] = b
write_all b (p ∷ ps) = write_all (write_log b p) ps

-- The buffer after the bytes `h`: at most `limit` of them, and whether there were more.
pub record Shows (b : LogBodyBuffer) (h : List ℕ) : Type 0 where
  pub kept : b.buffer ≡ take (pos_part b.limit) h
  pub cut : b.truncated ≡ ltb (pos_part b.limit) (length h)

limit-write_log : (b : LogBodyBuffer) (p : List ℕ) → (write_log b p).limit ≡ b.limit
unfolding write_log
limit-write_log b p = ground arith

take_zero : (xs : List ℕ) → take 0 xs ≡ []
take_zero xs = refl

buffer-write_log :
    (b : LogBodyBuffer) (h p : List ℕ)
    → Shows b h
    → (write_log b p).buffer ≡ take (pos_part b.limit) (h ++ p)
unfolding write_log
buffer-write_log b h p s = ground (
  arith,
  s.kept,
  take-append (pos_part b.limit) h p,
  length-take (pos_part b.limit) h,
  take_all (pos_part b.limit - length h) p,
  append-nil (take (pos_part b.limit) h),
)

truncated-write_log :
    (b : LogBodyBuffer) (h p : List ℕ)
    → 0 < length p
    → Shows b h
    → (write_log b p).truncated ≡ ltb (pos_part b.limit) (length (h ++ p))
unfolding write_log
truncated-write_log b h p n s =
    ground (arith, s.kept, length-append h p, length-take (pos_part b.limit) h)

-- If the buffer shows the first `limit` bytes of a stream and says whether any were left out, then
-- so it does after any further chunks, none of them empty.
pub write_all-Shows :
    (b : LogBodyBuffer) (h : List ℕ) (ps : List (List ℕ))
    → All (λ p. 0 < length p) ps
    → Shows b h
    → Shows (write_all b ps) (h ++ stream ps)
write_all-Shows b h [] n s = rw (append-nil h) s
write_all-Shows b h (p ∷ ps) n s = rw (← append_assoc h p (stream ps)) (
    write_all-Shows (write_log b p) (h ++ p) ps n.1 (record {
      kept = rw (limit-write_log b p) (buffer-write_log b h p s);
      cut = rw (limit-write_log b p) (truncated-write_log b h p n.0 s);
    }))

-- For a limit above 0, a logged body is its first `limit` bytes, with whether it was longer.
pub bounded_log_body_lem :
    (body : List ℕ) (limit : ℤ)
    → is_pos limit ≡ true
    → bounded_log_body body limit ≡ (take (pos_part limit) body, ltb (pos_part limit) (length body))
unfolding bounded_log_body write_log new_log_body_buffer
bounded_log_body_lem body limit e = ground (arith, take_all (pos_part limit) body)
