-- ===== src/Transform/Splice.antt =====
-- The replacement of spans in `transform_stage` of apply.py: from the right end of the text, so
-- that the offsets on the left stay good.
use dlp_server.Base.{ℕ, Bool, List, [], ◌∷◌, ◌++◌, leb, take, drop}
use dlp_server.Base.Str.{Str}
use dlp_server.Base.Sort.{sort}

-- (start, end, new_value)
pub record Replacement : Type 0 where
  pub start : ℕ
  pub end : ℕ
  pub new_value : Str

-- key=lambda r: r[0], reverse=True
abbrev pub from_right : Replacement → Replacement → Bool
from_right a b = leb b.start a.start

-- text[:start] + new_value + text[end:]
unfoldable pub splice : Str → Replacement → Str
splice text r = take r.start text ++ (r.new_value ++ drop r.end text)

unfoldable pub splice_all : Str → List Replacement → Str
splice_all text [] = text
splice_all text (r ∷ rest) = splice_all (splice text r) rest

-- the loop over sorted(replacements, key=…, reverse=True)
unfoldable pub replace_spans : Str → List Replacement → Str
replace_spans text replacements = splice_all text (sort from_right replacements)
