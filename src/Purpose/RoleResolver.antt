-- ===== src/Purpose/RoleResolver.antt =====
-- app/purpose/role_resolver.py: the role from the headers, whose keys count without case.
use dlp_server.Base.{Option, none, some, List, [], ◌∷◌, if◌then◌else◌}
use dlp_server.Base.Str.{Str, str, truthy, lookup, insert}
use dlp_server.Base.Unicode.{Unicode, strip, lower}

-- _ROLE_HEADER, _USER_ID_HEADER and _ROLE_MAP
unfoldable pub role_header : Str
role_header = str "x-corp-user-role"

unfoldable pub user_id_header : Str
user_id_header = str "x-corp-user-id"

unfoldable pub role_map : List (Str × Str)
role_map = []

abbrev pub or_empty : Option Str → Str
or_empty none = []
or_empty (some s) = s

module _ ⦃u : Unicode⦄ where
  -- {k.lower(): v for k, v in headers.items()}, onto the entries made so far
  unfoldable pub lower_keys : List (Str × Str) → List (Str × Str) → List (Str × Str)
  lower_keys acc [] = acc
  lower_keys acc ((k, v) ∷ rest) = lower_keys (insert (lower k) v acc) rest

  -- (lower.get(name) or "").strip()
  unfoldable pub header : Str → List (Str × Str) → Str
  header name headers = strip (or_empty (lookup name (lower_keys [] headers)))

  -- `resolve`; None and the empty dict have no role
  unfoldable pub resolve : Option (List (Str × Str)) → Option Str
  resolve none = none
  resolve (some []) = none
  resolve (some (h ∷ hs)) =
      let role = header role_header (h ∷ hs) in
      let user_id = header user_id_header (h ∷ hs) in
      if truthy role then some role else if truthy user_id then lookup user_id role_map else none
