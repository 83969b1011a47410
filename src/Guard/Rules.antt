-- ===== src/Guard/Rules.antt =====
-- The rules of app/guardrail/injection.py, their patterns as expressions of Regexp.
use dlp_server.Base.{List, [], ◌∷◌, ok}
use dlp_server.Base.Str.{Str, str}
use dlp_server.Base.Float.{Float}
use dlp_server.Base.Unicode.{Unicode}
use dlp_server.Regexp.{
  Re, char, one_of, space, word_char, alt, opt, spaces, dots, boundary, text_start, seqs, alts, lit,
  words, spaces1, Letters, searches,
}
use dlp_server.Guard.Injection.{Rule}

-- instruction_override
abbrev pub ignore_prior_ko : Re
ignore_prior_ko = seqs (
    words (
      str "이전"
      ∷ str "이제까지"
      ∷ str "지금까지"
      ∷ str "그동안"
      ∷ str "앞선"
      ∷ str "기존"
      ∷ str "위"
      ∷ str "모든"
      ∷ [])
    ∷ spaces
    ∷ dots 8
    ∷ words (str "지시" ∷ str "명령" ∷ str "지침" ∷ str "규칙" ∷ str "안내" ∷ str "프롬프트" ∷ str "설정" ∷ [])
    ∷ spaces
    ∷ dots 12
    ∷ alts (
        lit (str "무시")
        ∷ lit (str "잊")
        ∷ seqs (lit (str "따르지") ∷ spaces ∷ lit (str "마") ∷ [])
        ∷ seqs (lit (str "신경") ∷ spaces ∷ lit (str "쓰지") ∷ spaces ∷ lit (str "마") ∷ [])
        ∷ [])
    ∷ [])

-- a word and the blanks after it
abbrev pub word1 : Str → Re
word1 s = seqs (lit s ∷ spaces1 ∷ [])

abbrev pub ignore_prior_en : Re
ignore_prior_en = seqs (
    word1 (str "ignore")
    ∷ opt (alt (word1 (str "all")) (word1 (str "any")))
    ∷ alts (
        lit (str "previous")
        ∷ lit (str "prior")
        ∷ lit (str "earlier")
        ∷ lit (str "above")
        ∷ seqs (word1 (str "the") ∷ lit (str "above") ∷ [])
        ∷ [])
    ∷ spaces1
    ∷ words (
        str "instruction"
        ∷ str "prompt"
        ∷ str "message"
        ∷ str "rule"
        ∷ str "direction"
        ∷ str "context"
        ∷ [])
    ∷ opt (char b's')
    ∷ [])

abbrev pub disregard_en : Re
disregard_en = seqs (
    words (str "disregard" ∷ str "forget" ∷ [])
    ∷ spaces1
    ∷ opt (alts (word1 (str "all") ∷ word1 (str "the") ∷ word1 (str "everything") ∷ []))
    ∷ words (str "above" ∷ str "previous" ∷ str "prior" ∷ str "earlier" ∷ [])
    ∷ boundary
    ∷ [])

-- jailbreak
abbrev pub dan : Re
dan =
    alt
      (seqs (
        word1 (str "you")
        ∷ word1 (str "are")
        ∷ opt (word1 (str "now"))
        ∷ lit (str "dan")
        ∷ boundary
        ∷ []))
      (seqs (
        boundary
        ∷ lit (str "dan")
        ∷ boundary
        ∷ dots 20
        ∷ words (str "mode" ∷ str "jailbreak" ∷ str "모드" ∷ [])
        ∷ []))

abbrev pub dev_mode : Re
dev_mode = alts (
    seqs (lit (str "개발자") ∷ spaces ∷ lit (str "모드") ∷ [])
    ∷ seqs (word1 (str "developer") ∷ lit (str "mode") ∷ [])
    ∷ seqs (word1 (str "dev") ∷ lit (str "mode") ∷ [])
    ∷ [])

abbrev pub no_limits_en : Re
no_limits_en = alts (
    seqs (word1 (str "no") ∷ lit (str "restriction") ∷ opt (char b's') ∷ [])
    ∷ seqs (
        word1 (str "without")
        ∷ opt (word1 (str "any"))
        ∷ lit (str "restriction")
        ∷ opt (char b's')
        ∷ [])
    ∷ seqs (word1 (str "no") ∷ word1 (str "longer") ∷ lit (str "bound") ∷ [])
    ∷ seqs (
        word1 (str "ignore")
        ∷ opt (word1 (str "your"))
        ∷ alts (
            lit (str "safety")
            ∷ seqs (lit (str "guideline") ∷ opt (char b's') ∷ [])
            ∷ lit (str "policy")
            ∷ [])
        ∷ [])
    ∷ [])

abbrev pub pretend_en : Re
pretend_en = seqs (
    word1 (str "pretend")
    ∷ alt (seqs (word1 (str "you") ∷ lit (str "are") ∷ []))
        (seqs (word1 (str "to") ∷ lit (str "be") ∷ []))
    ∷ boundary
    ∷ [])

-- system_prompt_leak
abbrev pub reveal_ko : Re
reveal_ko = seqs (
    words (str "위" ∷ str "시스템" ∷ str "이전" ∷ str "당신의" ∷ [])
    ∷ spaces
    ∷ dots 6
    ∷ words (str "규칙" ∷ str "프롬프트" ∷ str "지침" ∷ str "instruction" ∷ [])
    ∷ spaces
    ∷ dots 12
    ∷ words (str "그대로" ∷ str "출력" ∷ str "보여" ∷ str "알려" ∷ str "말해" ∷ [])
    ∷ [])

abbrev pub print_en : Re
print_en = seqs (
    words (str "print" ∷ str "show" ∷ str "reveal" ∷ str "repeat" ∷ str "display" ∷ [])
    ∷ spaces1
    ∷ opt (word1 (str "me"))
    ∷ opt (word1 (str "your"))
    ∷ opt (word1 (str "system"))
    ∷ alts (
        lit (str "prompt")
        ∷ seqs (lit (str "instruction") ∷ opt (char b's') ∷ [])
        ∷ seqs (lit (str "rule") ∷ opt (char b's') ∷ [])
        ∷ [])
    ∷ [])

abbrev pub whatare_en : Re
whatare_en = seqs (
    word1 (str "what")
    ∷ words (str "is" ∷ str "are" ∷ [])
    ∷ spaces1
    ∷ word1 (str "your")
    ∷ opt (alts (word1 (str "initial") ∷ word1 (str "original") ∷ word1 (str "system") ∷ []))
    ∷ words (str "instruction" ∷ str "prompt" ∷ str "rule" ∷ str "directive" ∷ [])
    ∷ opt (char b's')
    ∷ [])

-- bulk_exfiltration
abbrev pub all_records_ko : Re
all_records_ko = seqs (
    alts (
      lit (str "전체")
      ∷ lit (str "모든")
      ∷ lit (str "모두")
      ∷ seqs (lit (str "전") ∷ opt space ∷ lit (str "직원") ∷ [])
      ∷ seqs (lit (str "전") ∷ opt space ∷ lit (str "고객") ∷ [])
      ∷ [])
    ∷ spaces
    ∷ dots 6
    ∷ alts (
        lit (str "고객")
        ∷ lit (str "사용자")
        ∷ lit (str "회원")
        ∷ lit (str "계정")
        ∷ lit (str "직원")
        ∷ lit (str "이메일")
        ∷ lit (str "전화번호")
        ∷ seqs (lit (str "주민") ∷ opt (lit (str "등록")) ∷ lit (str "번호") ∷ [])
        ∷ lit (str "계좌")
        ∷ [])
    ∷ spaces
    ∷ dots 12
    ∷ words (
        str "목록"
        ∷ str "나열"
        ∷ str "출력"
        ∷ str "덤프"
        ∷ str "csv"
        ∷ str "엑셀"
        ∷ str "내보내"
        ∷ str "추출"
        ∷ [])
    ∷ [])

abbrev pub all_records_en : Re
all_records_en = seqs (
    alts (
      lit (str "list")
      ∷ lit (str "dump")
      ∷ lit (str "export")
      ∷ lit (str "show")
      ∷ seqs (word1 (str "give") ∷ lit (str "me") ∷ [])
      ∷ [])
    ∷ spaces1
    ∷ alts (
        lit (str "all")
        ∷ lit (str "every")
        ∷ seqs (word1 (str "the") ∷ lit (str "entire") ∷ [])
        ∷ [])
    ∷ spaces1
    ∷ words (
        str "customer"
        ∷ str "user"
        ∷ str "account"
        ∷ str "employee"
        ∷ str "client"
        ∷ str "record"
        ∷ str "email"
        ∷ str "phone"
        ∷ [])
    ∷ opt (char b's')
    ∷ boundary
    ∷ [])

abbrev pub select_star : Re
select_star =
    seqs (word1 (str "select") ∷ lit (str "*") ∷ spaces1 ∷ word1 (str "from") ∷ word_char ∷ [])

-- role_manipulation
abbrev pub you_are_now_en : Re
you_are_now_en =
    alt
      (seqs (
        word1 (str "you")
        ∷ word1 (str "are")
        ∷ word1 (str "now")
        ∷ words (
            str "a"
            ∷ str "an"
            ∷ str "the"
            ∷ str "my"
            ∷ str "going"
            ∷ str "allowed"
            ∷ str "able"
            ∷ str "permitted"
            ∷ str "free"
            ∷ str "unrestricted"
            ∷ str "operating"
            ∷ str "running"
            ∷ [])
        ∷ boundary
        ∷ []))
      (seqs (
        word1 (str "from")
        ∷ word1 (str "now")
        ∷ lit (str "on")
        ∷ opt (char b',')
        ∷ spaces1
        ∷ word1 (str "you")
        ∷ alts (
            lit (str "are")
            ∷ lit (str "will")
            ∷ lit (str "must")
            ∷ seqs (word1 (str "should") ∷ lit (str "act") ∷ [])
            ∷ [])
        ∷ []))

abbrev pub you_are_now_ko : Re
you_are_now_ko = seqs (
    words (str "이제부터" ∷ str "지금부터" ∷ str "앞으로" ∷ [])
    ∷ spaces
    ∷ dots 4
    ∷ words (str "너는" ∷ str "넌" ∷ str "당신은" ∷ str "당신이" ∷ str "네가" ∷ [])
    ∷ [])

abbrev pub fake_system : Re
fake_system =
    alt
      (seqs (
        alt text_start (char 10)
        ∷ spaces
        ∷ words (str "system" ∷ str "시스템" ∷ [])
        ∷ spaces
        ∷ one_of (str ":：")
        ∷ []))
      (seqs (
        char b'<'
        ∷ spaces
        ∷ opt (char b'/')
        ∷ spaces
        ∷ lit (str "system")
        ∷ spaces
        ∷ char b'>'
        ∷ []))

module _ {F : Type 0} ⦃fl : Float F⦄ ⦃u : Unicode⦄ (l : Letters) where
  abbrev pub rule : Str → F → Re → Rule F
  rule name score re = record { name = name; search = λ s. ok (searches l re s); score = score }

  -- _RAW_RULES, compiled to DEFAULT_RULES
  unfoldable pub default_rules : List (Rule F)
  default_rules =
      rule (str "instruction_override.ignore_prior_ko") (fl.lit 9 1) ignore_prior_ko
      ∷ rule (str "instruction_override.ignore_prior_en") (fl.lit 9 1) ignore_prior_en
      ∷ rule (str "instruction_override.disregard_en") (fl.lit 9 1) disregard_en
      ∷ rule (str "jailbreak.dan") (fl.lit 8 1) dan
      ∷ rule (str "jailbreak.dev_mode") (fl.lit 8 1) dev_mode
      ∷ rule (str "jailbreak.no_limits_en") (fl.lit 8 1) no_limits_en
      ∷ rule (str "jailbreak.pretend_en") (fl.lit 75 2) pretend_en
      ∷ rule (str "system_prompt_leak.reveal_ko") (fl.lit 8 1) reveal_ko
      ∷ rule (str "system_prompt_leak.print_en") (fl.lit 8 1) print_en
      ∷ rule (str "system_prompt_leak.whatare_en") (fl.lit 8 1) whatare_en
      ∷ rule (str "bulk_exfiltration.all_records_ko") (fl.lit 85 2) all_records_ko
      ∷ rule (str "bulk_exfiltration.all_records_en") (fl.lit 85 2) all_records_en
      ∷ rule (str "bulk_exfiltration.select_star") (fl.lit 85 2) select_star
      ∷ rule (str "role_manipulation.you_are_now_en") (fl.lit 7 1) you_are_now_en
      ∷ rule (str "role_manipulation.you_are_now_ko") (fl.lit 7 1) you_are_now_ko
      ∷ rule (str "role_manipulation.fake_system") (fl.lit 7 1) fake_system
      ∷ []
