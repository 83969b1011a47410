-- ===== src/Detect/Tests.antt =====
-- A run of the layers, of which one raises.
use dlp_server.Base.{ℕ, ◌≡◌, refl, List, [], ◌∷◌, Result, ok, raised}
use dlp_server.Base.Str.{Str, str}
use dlp_server.Base.Float.{fixed}
use dlp_server.Base.Unicode.{ascii}
use dlp_server.Models.{Span}
use dlp_server.Detect.Layers.{DetectConfig, detect}
use dlp_server.Detect.Regex
use dlp_server.Detect.Regex.{
  Match, Patterns, detect_checked, detect_plain, all_spans, drop_overlapping, spans_overlap,
  span_of,
}
use dlp_server.Detect.Accounts.{AccountsApart, detect-AccountsApart}
use dlp_server.Detect.Isolation.{detect-raising_layer}

abbrev broken : Str → Result (List (Span ℕ))
broken text = raised

abbrev regex : Str → Result (List (Span ℕ))
regex text = ok (
    record {
      type = str "NAME";
      value = str "kim";
      start = 0;
      end = 3;
      confidence = 900000;
      source = str "regex";
    }
    ∷ [])

abbrev config : Result (DetectConfig ℕ)
config = ok (record {
  enabled_layers = str "regex, ner";
  regex_min_confidence = 500000;
  dict_min_confidence = 500000;
  ner_threshold = 500000;
  merge_overlap_bonus = 20000;
})

detect-raising_layer_example :
    detect config ((str "regex", regex) ∷ (str "ner", broken) ∷ []) (str "kim")
    ≡ detect config ((str "regex", regex) ∷ []) (str "kim")
detect-raising_layer_example =
    detect-raising_layer config (str "ner") broken ((str "regex", regex) ∷ []) [] (str "kim") refl

-- a phone number, which the account's pattern matches too
abbrev phone : Match
phone = record { value = str "010-1234-5678"; start = 0; end = 13; groups = [] }

abbrev patterns : Patterns
patterns = record {
  rrn = λ text. [];
  card = λ text. [];
  bizno = λ text. [];
  phone = λ text. phone ∷ [];
  email = λ text. [];
  account = λ text. phone ∷ [];
}

abbrev phone_span : Span ℕ
phone_span = record {
  type = str "PHONE";
  value = str "010-1234-5678";
  start = 0;
  end = 13;
  confidence = 650000;
  source = str "regex";
}

only_phone : Regex.detect patterns (str "010-1234-5678") ≡ ok (phone_span ∷ [])
unfolding Regex.detect detect_checked all_spans detect_plain drop_overlapping spans_overlap span_of
only_phone = refl

detect-AccountsApart_example : AccountsApart (phone_span ∷ [])
detect-AccountsApart_example =
    detect-AccountsApart patterns (str "010-1234-5678") (phone_span ∷ []) only_phone
