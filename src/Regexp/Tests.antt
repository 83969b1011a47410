-- ===== src/Regexp/Tests.antt =====
-- Searches with the letters of ASCII.
use dlp_server.Base.{◌≡◌, refl, true, false, [], ◌∷◌}
use dlp_server.Base.Str.{str}
use dlp_server.Base.Unicode.{ascii}
use dlp_server.Regexp.{
  seqs, lit, dots, boundary, one, after_dots, from_all, matches, search_from, searches,
  plain_letters,
}

near :
    searches plain_letters (seqs (lit (str "ab") ∷ dots 2 ∷ lit (str "c") ∷ [])) (str "xAB..c")
    ≡ true
unfolding searches search_from matches one after_dots from_all
near = refl

far :
    searches plain_letters (seqs (lit (str "ab") ∷ dots 2 ∷ lit (str "c") ∷ [])) (str "ab...c")
    ≡ false
unfolding searches search_from matches one after_dots from_all
far = refl

whole_word : searches plain_letters (seqs (lit (str "dan") ∷ boundary ∷ [])) (str "dance") ≡ false
unfolding searches search_from matches one from_all
whole_word = refl
