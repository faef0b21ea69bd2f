-- ===== src/Usage/Counting.antt =====
-- What `extractUsage` counts: each number is that of the last usage object that has it.
use mathlib.Core.Option
use shepard.Base.{
  ℕ, ◌≡◌, refl, String, Option, none, some, List, [], ◌∷◌, sym, ◌∙◌, ap, Bool-cases, inl, inr,
  Option-cases, if◌then◌else◌,
}
use shepard.Base.Text.{split, trim_space, has_prefix, trim_prefix}
use shepard.Usage.Extraction.{
  TokenCounts, no_tokens, UsageJson, decode, decode_line, decode_lines, written_over, tokens_of,
  extract_usage,
}

-- The numbers of one usage object, where it has them.
pub record Reported : Type 0 where
  pub prompt : Option ℕ
  pub completion : Option ℕ
  pub input : Option ℕ
  pub output : Option ℕ
  pub total : Option ℕ

abbrev or_kept : ℕ → Option ℕ → ℕ
or_kept n none = n
or_kept n (some m) = m

abbrev over : TokenCounts → Reported → TokenCounts
over best r = record {
  prompt_tokens = or_kept best.prompt_tokens r.prompt;
  completion_tokens = or_kept best.completion_tokens r.completion;
  input_tokens = or_kept best.input_tokens r.input;
  output_tokens = or_kept best.output_tokens r.output;
  total_tokens = or_kept best.total_tokens r.total;
}

-- `json.Unmarshal` into a struct that holds values: what the text has is written, and the rest stays.
pub record IsFieldwise (json : UsageJson) : Type 0 where
  pub reported : json.Raw → Option Reported
  pub writes :
      (raw : json.Raw) (best : TokenCounts)
      → json.decode_into raw best ≡ Option.map (over best) (reported raw)

-- The last of the numbers.
abbrev pub last_of : List (Option ℕ) → Option ℕ
last_of [] = none
last_of (o ∷ os) = elim (last_of os) [ some n ↦ some n | none ↦ o ]

abbrev column : (Reported → Option ℕ) → List Reported → List (Option ℕ)
column f [] = []
column f (r ∷ rs) = f r ∷ column f rs

abbrev last_or : ℕ → (Reported → Option ℕ) → List Reported → ℕ
last_or n f rs = or_kept n (last_of (column f rs))

-- The last number of each kind, or what there was before.
abbrev pub latest : TokenCounts → List Reported → TokenCounts
latest best rs = record {
  prompt_tokens = last_or best.prompt_tokens Reported.prompt rs;
  completion_tokens = last_or best.completion_tokens Reported.completion rs;
  input_tokens = last_or best.input_tokens Reported.input rs;
  output_tokens = last_or best.output_tokens Reported.output rs;
  total_tokens = last_or best.total_tokens Reported.total rs;
}

last_or-cons :
    (n : ℕ) (f : Reported → Option ℕ) (r : Reported) (rs : List Reported)
    → last_or n f (r ∷ rs) ≡ last_or (or_kept n (f r)) f rs
last_or-cons n f r rs = elim (Option-cases (last_of (column f rs))) [
  | inl empty ↦ rw empty refl
  | inr (m, found) ↦ rw found refl
]

latest-cons :
    (best : TokenCounts) (r : Reported) (rs : List Reported)
    → latest best (r ∷ rs) ≡ latest (over best r) rs
latest-cons best r rs = λ i. record {
  prompt_tokens = last_or-cons best.prompt_tokens Reported.prompt r rs i;
  completion_tokens = last_or-cons best.completion_tokens Reported.completion r rs i;
  input_tokens = last_or-cons best.input_tokens Reported.input r rs i;
  output_tokens = last_or-cons best.output_tokens Reported.output r rs i;
  total_tokens = last_or-cons best.total_tokens Reported.total r rs i;
}

-- The events of a stream: what follows `data:` on its lines.
abbrev pub events : List String → List String
events [] = []
events (line ∷ lines) =
    let rest = events lines in
    if has_prefix (trim_space line) "data:"
    then trim_space (trim_prefix (trim_space line) "data:") ∷ rest
    else rest

abbrev and_then : Option Reported → List Reported → List Reported
and_then none rs = rs
and_then (some r) rs = r ∷ rs

module _ (json : UsageJson) (fieldwise : IsFieldwise json) where
  abbrev with_raw : Option json.Raw → List Reported → List Reported
  with_raw none rs = rs
  with_raw (some raw) rs = and_then (fieldwise.reported raw) rs

  -- The usage objects of the texts that have one, in their order.
  abbrev pub reports : List String → List Reported
  reports [] = []
  reports (text ∷ texts) = with_raw (json.usage_of text) (reports texts)

  reported-latest :
      (o : Option Reported) (best : TokenCounts) (rs : List Reported)
      → latest (written_over json best (Option.map (over best) o)) rs ≡ latest best (and_then o rs)
  reported-latest none best rs = refl
  reported-latest (some r) best rs = sym (latest-cons best r rs)

  raw-latest :
      (raw : json.Raw) (best : TokenCounts) (rs : List Reported)
      → latest (written_over json best (json.decode_into raw best)) rs
        ≡ latest best (with_raw (some raw) rs)
  raw-latest raw best rs =
      ap (λ o. latest (written_over json best o) rs) (fieldwise.writes raw best)
      ∙ reported-latest (fieldwise.reported raw) best rs

  decode-latest :
      (text : String) (best : TokenCounts) (rs : List Reported)
      → latest (decode json text best) rs ≡ latest best (with_raw (json.usage_of text) rs)
  unfolding decode
  decode-latest text best rs = elim (Option-cases (json.usage_of text)) [
    | inl missing ↦ rw (missing, decode) refl
    | inr (raw, found) ↦ rw (found, decode) (raw-latest raw best rs)
  ]

  decode_lines-latest :
      (lines : List String) (best : TokenCounts)
      → decode_lines json lines best ≡ latest best (reports (events lines))
  unfolding decode_lines decode_line
  decode_lines-latest [] best = refl
  decode_lines-latest (line ∷ lines) best =
      elim (Bool-cases (has_prefix (trim_space line) "data:")) [
        | inr other ↦ rw other (decode_lines-latest lines best)
        | inl event ↦ rw event (
            decode_lines-latest lines
              (decode json (trim_space (trim_prefix (trim_space line) "data:")) best)
            ∙ decode-latest (trim_space (trim_prefix (trim_space line) "data:")) best
                (reports (events lines)))
      ]

  -- If the decoder writes the numbers that a usage object has and leaves the others, then each of
  -- the five numbers that `extractUsage` sees is the last one of its kind among the usage objects
  -- of the body and of its `data:` lines, in their order, or 0; and the counts follow from the five
  -- by the fallbacks.
  pub extract_usage-latest :
      (body : String)
      → extract_usage json body
        ≡ tokens_of json (latest no_tokens (reports (body ∷ events (split body b'\n'))))
  unfolding extract_usage
  extract_usage-latest body = ap (tokens_of json) (
      decode_lines-latest (split body b'\n') (decode json body no_tokens)
      ∙ decode-latest body no_tokens (reports (events (split body b'\n'))))
