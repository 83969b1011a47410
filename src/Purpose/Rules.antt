-- ===== src/Purpose/Rules.antt =====
-- The rules of app/purpose/classifier.py, their patterns as expressions of Regexp.
use dlp_server.Base.{List, [], ◌∷◌, ok}
use dlp_server.Base.Str.{Str, str}
use dlp_server.Base.Unicode.{Unicode}
use dlp_server.Regexp.{Re, one_of, space, opt, seqs, alts, lit, spaces1, Letters, searches}
use dlp_server.Purpose.Classifier.{Pattern}

-- a\s?b, and a\s+b
abbrev joined : Str → Str → Re
joined a b = seqs (lit a ∷ opt space ∷ lit b ∷ [])

abbrev spaced : Str → Str → Re
spaced a b = seqs (lit a ∷ spaces1 ∷ lit b ∷ [])

abbrev pub fraud_investigation : Re
fraud_investigation = alts (
    lit (str "사기")
    ∷ joined (str "이상") (str "거래")
    ∷ joined (str "부정") (str "사용")
    ∷ joined (str "자금") (str "세탁")
    ∷ joined (str "조사") (str "의뢰")
    ∷ lit (str "fraud")
    ∷ joined (str "money") (str "launder")
    ∷ [])

abbrev pub data_analysis : Re
data_analysis = alts (
    joined (str "몇") (str "명")
    ∷ lit (str "건수")
    ∷ lit (str "평균")
    ∷ lit (str "합계")
    ∷ lit (str "통계")
    ∷ lit (str "분포")
    ∷ lit (str "집계")
    ∷ lit (str "비율")
    ∷ lit (str "추이")
    ∷ lit (str "aggregate")
    ∷ lit (str "average")
    ∷ spaced (str "how") (str "many")
    ∷ [])

abbrev pub code_help : Re
code_help = alts (
    lit (str "코드")
    ∷ lit (str "함수")
    ∷ lit (str "메서드")
    ∷ lit (str "에러")
    ∷ lit (str "버그")
    ∷ lit (str "디버그")
    ∷ joined (str "스택") (str "트레이스")
    ∷ lit (str "traceback")
    ∷ lit (str "exception")
    ∷ joined (str "stack") (str "trace")
    ∷ [])

abbrev pub doc_summarize : Re
doc_summarize = alts (
    lit (str "요약")
    ∷ lit (str "번역")
    ∷ lit (str "정리")
    ∷ lit (str "초록")
    ∷ lit (str "개조식")
    ∷ lit (str "bullet")
    ∷ seqs (lit (str "summari") ∷ one_of (str "sz") ∷ lit (str "e") ∷ [])
    ∷ lit (str "translate")
    ∷ lit (str "tl;dr")
    ∷ [])

abbrev pub customer_support : Re
customer_support = alts (
    lit (str "고객")
    ∷ lit (str "민원")
    ∷ lit (str "문의")
    ∷ lit (str "상담")
    ∷ lit (str "접수")
    ∷ lit (str "응대")
    ∷ lit (str "클레임")
    ∷ lit (str "inquiry")
    ∷ lit (str "complaint")
    ∷ lit (str "ticket")
    ∷ [])

module _ ⦃u : Unicode⦄ (l : Letters) where
  abbrev pub pattern_of : Str → Re → Pattern
  pattern_of name re = record { name = name; search = λ s. ok (searches l re s) }

  -- _RAW_RULES, compiled
  unfoldable pub compiled : List Pattern
  compiled =
      pattern_of (str "fraud_investigation") fraud_investigation
      ∷ pattern_of (str "data_analysis") data_analysis
      ∷ pattern_of (str "code_help") code_help
      ∷ pattern_of (str "doc_summarize") doc_summarize
      ∷ pattern_of (str "customer_support") customer_support
      ∷ []
