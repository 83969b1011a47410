-- ===== src/Purpose/Tests.antt =====
-- A run of classifier.py with its rules.
use dlp_server.Base.{ℕ, ◌≡◌, refl}
use dlp_server.Base.Str.{str}
use dlp_server.Base.Float.{fixed}
use dlp_server.Base.Unicode.{ascii}
use dlp_server.Regexp.{
  one, after_spaces, after_dots, from_all, matches, search_from, searches, plain_letters,
}
use dlp_server.Purpose.Classifier.{Classified, classify, found, classify-Classified}
use dlp_server.Purpose.Rules.{compiled}

counting : (classify {F = ℕ} (compiled plain_letters) (str "고객 몇 명?")).0 ≡ str "data_analysis"
unfolding classify found compiled searches search_from matches one after_spaces after_dots from_all
counting = refl

classify-Classified_example :
    Classified {F = ℕ}
      (compiled plain_letters)
      (str "고객 몇 명?")
      (classify (compiled plain_letters) (str "고객 몇 명?"))
classify-Classified_example = classify-Classified (compiled plain_letters) (str "고객 몇 명?")
