-- ===== src/Streaming/Tests.antt =====
-- A stream whose second write is refused a deadline.
use shepard.Base.{◌≡◌, refl, true, none, some, [], ◌∷◌, pos}
use shepard.Streaming.{Connection, Write, extended, refused, copy_stream}

abbrev first_write : Write
first_write = record { now = 5; extended = extended; takes = 104 ∷ []; error = none }

abbrev second_write : Write
second_write = record { now = 9; extended = refused "closed"; takes = 105 ∷ []; error = none }

abbrev fresh : Connection
fresh = record { taken = []; flushed = []; deadline = none }

stream_ends :
    copy_stream (pos 2) true (first_write ∷ second_write ∷ second_write ∷ []) fresh
    ≡ record { taken = (104 ∷ []) ∷ []; flushed = (104 ∷ []) ∷ []; deadline = some 7 }
unfolding copy_stream
stream_ends = refl
