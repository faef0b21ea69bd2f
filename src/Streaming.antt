-- ===== src/Streaming.antt =====
-- internal/gateway/gateway.go, `flushWriter`: the writer of an event stream, which extends the
-- connection's deadline before each write and flushes after it.
mod Tests
use shepard.Base.{
  ℕ, ◌+◌, ◌≡◌, ◌≤◌, refl, String, Bool, true, false, Option, none, some, List, [], ◌∷◌, ◌++◌, ℤ,
  is_pos, pos_part, if◌then◌else◌, arith, Bool-cases, inl, inr,
}

-- The connection: the chunks that its writer took, how many of them were flushed, and the deadline of
-- the next write.
pub record Connection : Type 0 where
  pub taken : List (List ℕ)
  pub flushed : List (List ℕ)
  pub deadline : Option ℕ

-- What `SetWriteDeadline` returns: no error, `http.ErrNotSupported`, or another error.
pub data Extended : Type 0 where
  extended unsupported : Extended
  refused : String → Extended

-- What one write meets: the time, the answer of `SetWriteDeadline`, what the writer takes of the
-- chunk, and its error.
pub record Write : Type 0 where
  pub now : ℕ
  pub extended : Extended
  pub takes : List ℕ
  pub error : Option String

-- `controller` sets deadlines; `flushes` says whether the writer is an `http.Flusher`.
module _ (write_idle_timeout : ℤ) (flushes : Bool) where
  abbrev pub flush_if : Connection → Connection
  flush_if c = if flushes then record c { flushed = c.taken } else c

  abbrev pub write_through : Write → Connection → Option String × Connection
  write_through w c = (w.error, flush_if (record c { taken = c.taken ++ w.takes ∷ [] }))

  abbrev pub after_extension : Write → Connection → Extended → Option String × Connection
  after_extension w c extended =
      write_through w (record c { deadline = some (w.now + pos_part write_idle_timeout) })
  after_extension w c unsupported = write_through w c
  after_extension w c (refused error) = (some error, c)

  unfoldable pub flush_write : Write → Connection → Option String × Connection
  flush_write w c =
      if is_pos write_idle_timeout then after_extension w c w.extended else write_through w c

  -- The copy of a stream ends with the first error of a write.
  abbrev pub unless_failed : Option String × Connection → (Connection → Connection) → Connection
  unless_failed (some error, c) next = c
  unless_failed (none, c) next = next c

  unfoldable pub copy_stream : List Write → Connection → Connection
  unfolding flush_write
  copy_stream [] c = c
  copy_stream (w ∷ ws) c = unless_failed (flush_write w c) (copy_stream ws)

  write_through-flushed :
      (w : Write) (c : Connection)
      → flushes ≡ true
      → (write_through w c).1.flushed ≡ (write_through w c).1.taken
  write_through-flushed w c e = rw e refl

  flush_write-flushed :
      (w : Write) (c : Connection)
      → flushes ≡ true
      → c.flushed ≡ c.taken
      → (flush_write w c).1.flushed ≡ (flush_write w c).1.taken
  unfolding flush_write
  flush_write-flushed w c e f = ground (arith, e, f)

  unless_failed-flushed :
      (x : Option String × Connection) (next : Connection → Connection)
      → x.1.flushed ≡ x.1.taken
      → ((d : Connection) → d.flushed ≡ d.taken → (next d).flushed ≡ (next d).taken)
      → (unless_failed x next).flushed ≡ (unless_failed x next).taken
  unless_failed-flushed (some error, d) next g h = g
  unless_failed-flushed (none, d) next g h = h d g

  -- Nothing of a stream is held back: if the connection's writer can flush and has flushed what it
  -- took, then so it has after any writes of a stream, also where one of them fails.
  pub copy_stream-flushed :
      (ws : List Write) (c : Connection)
      → flushes ≡ true
      → c.flushed ≡ c.taken
      → (copy_stream ws c).flushed ≡ (copy_stream ws c).taken
  unfolding copy_stream
  copy_stream-flushed [] c e f = f
  copy_stream-flushed (w ∷ ws) c e f =
      unless_failed-flushed (flush_write w c) (copy_stream ws) (flush_write-flushed w c e f)
        (λ d g. copy_stream-flushed ws d e g)
