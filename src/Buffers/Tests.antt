-- ===== src/Buffers/Tests.antt =====
-- Runs of the buffers, and their theorems at small inputs.
use shepard.Base.{ℕ, ◌≡◌, refl, false, List, [], ◌∷◌, ◌++◌, pos, arith}
use shepard.Buffers.{TailBuffer, write_tail, LogBodyBuffer}
use shepard.Buffers.Tail
use shepard.Buffers.Tail.{last, stream, write_all-last}
use shepard.Buffers.Prefix
use shepard.Buffers.Prefix.{Shows, write_all-Shows, bounded_log_body_lem}

abbrev chunks : List (List ℕ)
chunks = (1 ∷ 2 ∷ []) ∷ (3 ∷ 4 ∷ []) ∷ []

abbrev small_tail : TailBuffer
small_tail = record { buf = []; limit = 3 }

end_of_stream : (Tail.write_all small_tail chunks).buf ≡ 2 ∷ 3 ∷ 4 ∷ []
unfolding write_tail
end_of_stream = refl

write_all-last_example :
    (Tail.write_all small_tail chunks).buf ≡ last small_tail.limit ([] ++ stream chunks)
write_all-last_example = write_all-last small_tail [] chunks refl

abbrev small_log : LogBodyBuffer
small_log = record { buffer = []; limit = pos 3; truncated = false }

write_all-Shows_example : Shows (Prefix.write_all small_log chunks) ([] ++ stream chunks)
write_all-Shows_example =
    write_all-Shows small_log [] chunks (omega arith) (record { kept = refl; cut = refl })
