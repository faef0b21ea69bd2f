-- ===== src/Usage/Extraction.antt =====
-- `extractUsage`: the token counts of a JSON response, or of the events of a stream.
use Prim.Native.Nat.{◌%◌}
use shepard.Base.{ℕ, ◌+◌, ◌==◌, nat_eq, if◌then◌else◌, String, Option, none, some, List, [], ◌∷◌}
use shepard.Base.Text.{split, trim_space, has_prefix, trim_prefix}

pub record TokenCounts : Type 0 where
  pub prompt_tokens : ℕ
  pub completion_tokens : ℕ
  pub input_tokens : ℕ
  pub output_tokens : ℕ
  pub total_tokens : ℕ

abbrev pub no_tokens : TokenCounts
no_tokens = record {
  prompt_tokens = 0;
  completion_tokens = 0;
  input_tokens = 0;
  output_tokens = 0;
  total_tokens = 0;
}

-- The package json. `usage_of` gives the envelope's `usage`, where the text decodes and has one that
-- is not null; `decode_into` writes its fields over a copy of counts, where it decodes.
pub record UsageJson : Type 1 where
  pub Raw : Type 0
  pub usage_of : String → Option Raw
  pub decode_into : Raw → TokenCounts → Option TokenCounts

module _ (json : UsageJson) where
  abbrev pub written_over : TokenCounts → Option TokenCounts → TokenCounts
  written_over best none = best
  written_over best (some candidate) = candidate

  unfoldable pub decode : String → TokenCounts → TokenCounts
  decode text best = elim (json.usage_of text) [
    | none ↦ best
    | some raw ↦ written_over best (json.decode_into raw best)
  ]

  unfoldable pub decode_line : String → TokenCounts → TokenCounts
  unfolding decode
  decode_line line best =
      if has_prefix line "data:" then decode (trim_space (trim_prefix line "data:")) best else best

  unfoldable pub decode_lines : List String → TokenCounts → TokenCounts
  unfolding decode_line
  decode_lines [] best = best
  decode_lines (line ∷ lines) best = decode_lines lines (decode_line (trim_space line) best)

  abbrev pub or_if_zero : ℕ → ℕ → ℕ
  or_if_zero n m = if n == 0 then m else n

  -- The sum is one of uint64 values.
  abbrev pub uint64_size : ℕ
  uint64_size = 18_446_744_073_709_551_616

  abbrev pub tokens_of : TokenCounts → ℕ × ℕ × ℕ
  tokens_of best =
      let input = or_if_zero best.input_tokens best.prompt_tokens in
      let output = or_if_zero best.output_tokens best.completion_tokens in
      (input, output, or_if_zero best.total_tokens ((input + output) % uint64_size))

  unfoldable pub extract_usage : String → ℕ × ℕ × ℕ
  unfolding decode decode_lines
  extract_usage body = tokens_of (decode_lines (split body b'\n') (decode body no_tokens))
