-- ===== src/Transform/Tests.antt =====
-- Runs of apply.py.
use dlp_server.Base.{ℕ, ◌<◌, ◌-◌, ◌≡◌, List, [], ◌∷◌, arith, inl}
use dlp_server.Base.Str.{Str, str}
use dlp_server.Base.Unicode.{ascii}
use dlp_server.Base.Sort.{sort}
use dlp_server.Transform.Mask.{mask_keep_last_digits}
use dlp_server.Transform.KeepLast.{count_digits, hide_first, mask_keep_last_digits-eq-hide_first}
use dlp_server.Transform.Splice.{Replacement, from_right, replace_spans}
use dlp_server.Transform.Weave.{woven, replace_spans-eq-woven}

abbrev phone : Str
phone = str "010-1234-5678"

mask_keep_last_digits-eq-hide_first_example :
    (0 < 4 → mask_keep_last_digits phone 4 ≡ hide_first (count_digits phone - 4) phone)
    × (◌≡◌ {A = ℕ} 4 0 → mask_keep_last_digits phone 4 ≡ phone)
mask_keep_last_digits-eq-hide_first_example = mask_keep_last_digits-eq-hide_first phone 4

abbrev pieces : List Replacement
pieces =
    record { start = 0; end = 3; new_value = str "K**" }
    ∷ record { start = 4; end = 7; new_value = str "[삭제됨]" }
    ∷ []

replace_spans-eq-woven_example :
    replace_spans (str "kim lee.") pieces ≡ woven (str "kim lee.") (sort from_right pieces)
replace_spans-eq-woven_example =
    replace_spans-eq-woven (str "kim lee.") pieces
      ((omega arith, omega arith), ((omega arith, omega arith), tt))
      ((inl (omega arith), tt), (tt, tt))
