-- ===== src/Guard/LeakRules.antt =====
-- The rules of app/guardrail/output_check.py, their patterns as expressions of Regexp.
use dlp_server.Base.{List, [], ◌∷◌, ok}
use dlp_server.Base.Str.{Str, str}
use dlp_server.Base.Unicode.{Unicode}
use dlp_server.Regexp.{
  Re, char, space, alt, opt, spaces, dots, boundary, seqs, alts, lit, words, spaces1, Letters,
  searches,
}
use dlp_server.Purpose.Classifier.{Pattern}

-- a word and the blanks after it
abbrev word1 : Str → Re
word1 s = seqs (lit s ∷ spaces1 ∷ [])

-- a word and an s, if there is one
abbrev plural : Str → Re
plural s = seqs (lit s ∷ opt (char b's') ∷ [])

abbrev pub prompt_leak_ko : Re
prompt_leak_ko = seqs (
    words (str "제" ∷ str "내" ∷ str "나의" ∷ str "저의" ∷ str "시스템" ∷ [])
    ∷ spaces
    ∷ alts (
        seqs (lit (str "지시") ∷ opt space ∷ lit (str "사항") ∷ [])
        ∷ lit (str "프롬프트")
        ∷ lit (str "규칙")
        ∷ lit (str "지침")
        ∷ [])
    ∷ spaces
    ∷ opt (words (str "은" ∷ str "는" ∷ []))
    ∷ spaces
    ∷ words (str "다음" ∷ str "아래" ∷ str "이것" ∷ str "이거" ∷ [])
    ∷ [])

abbrev pub prompt_leak_en : Re
prompt_leak_en = seqs (
    alt (seqs (word1 (str "here") ∷ words (str "is" ∷ str "are" ∷ []) ∷ []))
      (seqs (word1 (str "the") ∷ word1 (str "following") ∷ words (str "is" ∷ str "are" ∷ []) ∷ []))
    ∷ spaces1
    ∷ words (str "my" ∷ str "the" ∷ [])
    ∷ spaces1
    ∷ opt (word1 (str "system"))
    ∷ alts (
        lit (str "prompt")
        ∷ plural (str "instruction")
        ∷ plural (str "rule")
        ∷ plural (str "guideline")
        ∷ [])
    ∷ [])

abbrev pub instruction_disclosure_en : Re
instruction_disclosure_en = seqs (
    word1 (str "my")
    ∷ opt (word1 (str "system"))
    ∷ alts (plural (str "instruction") ∷ lit (str "prompt") ∷ plural (str "directive") ∷ [])
    ∷ spaces1
    ∷ words (str "are" ∷ str "is" ∷ str "state" ∷ str "say" ∷ [])
    ∷ boundary
    ∷ [])

abbrev pub role_disclosure_ko : Re
role_disclosure_ko = seqs (
    words (str "나는" ∷ str "저는" ∷ [])
    ∷ spaces
    ∷ dots 20
    ∷ words (str "DLP" ∷ str "게이트웨이" ∷ str "가드레일" ∷ [])
    ∷ spaces
    ∷ dots 10
    ∷ alts (
        seqs (lit (str "지시") ∷ opt space ∷ lit (str "받") ∷ [])
        ∷ lit (str "프로그래밍")
        ∷ lit (str "설정")
        ∷ [])
    ∷ [])

module _ ⦃u : Unicode⦄ (l : Letters) where
  abbrev pub leak_rule : Str → Re → Pattern
  leak_rule name re = record { name = name; search = λ s. ok (searches l re s) }

  -- _RAW_OUTPUT_RULES, compiled
  unfoldable pub output_rules : List Pattern
  output_rules =
      leak_rule (str "system_prompt_leak.ko") prompt_leak_ko
      ∷ leak_rule (str "system_prompt_leak.en") prompt_leak_en
      ∷ leak_rule (str "instruction_disclosure.en") instruction_disclosure_en
      ∷ leak_rule (str "role_disclosure.ko") role_disclosure_ko
      ∷ []
