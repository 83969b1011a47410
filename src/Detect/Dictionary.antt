-- ===== src/Detect/Dictionary.antt =====
-- app/detect/dictionary.py: the terms of a dictionary file and where a text has them. The
-- automaton is the library's: a table of words with a payload, and a search for all of them.
use dlp_server.Base.{
  ℕ, suc, ◌-◌, ◌==◌, ltb, Option, none, some, List, [], ◌∷◌, map, length, slice, Result, ok, raised,
  if◌then◌else◌,
}
use dlp_server.Base.Str.{Str, str, insert, truthy}
use dlp_server.Base.Unicode.{Unicode, strip}
use dlp_server.Models.{Span}
use dlp_server.Detect.Layers.{add_char}

-- MIN_TERM_LENGTH
unfoldable pub min_term_length : ℕ
min_term_length = 2

-- what is stored for a term
pub record Payload (F : Type 0) : Type 0 where
  pub type : Str
  pub confidence : F
  pub term_length : ℕ

-- the words of an automaton; a word that is added again gets the new payload
abbrev pub Words : Type 0 → Type 0
Words F = List (Str × Payload F)

-- line.split("\t")
unfoldable pub split_tabs : Str → List Str
split_tabs [] = [] ∷ []
split_tabs (c ∷ s) = let fields = split_tabs s in if c == 9 then [] ∷ fields else add_char c fields

-- What the modules of the libraries do: float(s), which may raise; and `iter`, which gives the end
-- and the payload of every occurrence of a word.
pub record Library (F : Type 0) : Type 0 where
  pub parse_float : Str → Result F
  pub iter : Words F → Str → List (ℕ × Payload F)

-- a word, unless its confidence is no number
abbrev pub add_word : {F : Type 0} → Str → Str → Result F → Words F → Words F
add_word term type raised words = words
add_word term type (ok f) words =
    insert term (record { type = type; confidence = f; term_length = length term }) words

module _ {F : Type 0} (lib : Library F) where
  -- the fields of a line that is neither empty nor a comment
  unfoldable pub add_fields : List Str → Words F → Words F
  add_fields [] words = words
  add_fields (a ∷ []) words = words
  add_fields (a ∷ b ∷ []) words = words
  add_fields (term ∷ type ∷ confidence ∷ []) words =
      if ltb (length term) min_term_length
      then words
      else add_word term type (lib.parse_float confidence) words
  add_fields (a ∷ b ∷ c ∷ d ∷ rest) words = words

  -- one line of the file, stripped
  unfoldable pub add_line : Str → Words F → Words F
  add_line [] words = words
  add_line (c ∷ rest) words = if c == b'#' then words else add_fields (split_tabs (c ∷ rest)) words

  unfoldable pub add_lines : ⦃u : Unicode⦄ → List Str → Words F → Words F
  add_lines [] words = words
  add_lines (l ∷ lines) words = add_lines lines (add_line (strip l) words)

  -- `load_dictionary`; `none` is a path that does not exist
  unfoldable pub load_dictionary : ⦃u : Unicode⦄ → Option (List Str) → Words F
  load_dictionary none = []
  load_dictionary (some lines) = add_lines lines []

  -- the span of an occurrence; the start is not below 0 for a word that ends there
  abbrev pub span_of : Str → ℕ × Payload F → Span F
  span_of text (end_index, p) = record {
    type = p.type;
    value = slice (suc end_index - p.term_length) (suc end_index) text;
    start = suc end_index - p.term_length;
    end = suc end_index;
    confidence = p.confidence;
    source = str "dict";
  }

  -- `detect`
  unfoldable pub detect : Words F → Str → List (Span F)
  detect [] text = []
  detect (w ∷ words) text = map (span_of text) (lib.iter (w ∷ words) text)

-- `_resolve_default_path`: the path of the configuration, if it loads and names one
unfoldable pub resolve_default_path : Result (Option Str) → Str → Str
resolve_default_path raised default_path = default_path
resolve_default_path (ok none) default_path = default_path
resolve_default_path (ok (some path)) default_path = if truthy path then path else default_path

-- `_get_default_automaton`: the words, and the cache after the call
unfoldable pub get_default_automaton : {A : Type 0} → A → Option A → A × Option A
get_default_automaton loaded none = (loaded, some loaded)
get_default_automaton loaded (some cached) = (cached, some cached)
