-- ===== src/Vault/Samples.antt =====
-- The libraries, the rows and the tables with which the runs of vault.py begin: a cipher that
-- changes nothing, and a digest that keeps the text.
use dlp_server.Base.{ℕ, refl, true, false, none, some, List, [], ◌∷◌, ◌++◌, ok, arith}
use dlp_server.Base.Str.{str, eq}
use dlp_server.Base.Unicode.{ascii}
use dlp_server.Vault.Rows.{Row, Db, Scope, count}
use dlp_server.Vault.Label.{token_label, print_nat, digits_onto}
use dlp_server.Vault.Crypto.{External}
use dlp_server.Vault.Numbering.{IsNumbered}
use dlp_server.Vault.Tokens.{IsFaithful}

abbrev pub plain : External
plain = record {
  parse_uuid = λ s. some s;
  uuid5 = λ s. s;
  sha256_hex = λ s. s;
  utf8_encode = λ s. s;
  utf8_decode = λ b. ok b;
  cipher_ready = true;
  seal = λ n t. t;
  unseal = λ n t. ok t;
}

-- the key is not configured
abbrev pub closed : External
closed = record plain { cipher_ready = false }

pub plain-IsFaithful : IsFaithful plain
plain-IsFaithful = record { unseal_seal = λ n t. refl; decode_encode = λ s. refl }

abbrev pub twelve : List ℕ
twelve = 0 ∷ 1 ∷ 2 ∷ 3 ∷ 4 ∷ 5 ∷ 6 ∷ 7 ∷ 8 ∷ 9 ∷ 10 ∷ 11 ∷ []

abbrev pub open_scope : Scope
open_scope = (str "roles", str "*" ∷ []) ∷ (str "purposes", str "*" ∷ []) ∷ []

abbrev pub kim : Row
kim = record {
  token_id = 2;
  session_id = str "s";
  entity_type = str "NAME";
  token_label = str "<PII:NAME:2>";
  cipher_value = twelve ++ str "kim";
  value_hash = str "h2";
  access_scope = open_scope;
  expires_at = 500000000000;
  revoked_at = none;
}

abbrev pub lee : Row
lee = record {
  token_id = 1;
  session_id = str "s";
  entity_type = str "NAME";
  token_label = str "<PII:NAME:1>";
  cipher_value = twelve ++ str "lee";
  value_hash = str "h1";
  access_scope = open_scope;
  expires_at = 500000000000;
  revoked_at = some 1;
}

abbrev pub empty : Db
empty = record { rows = []; log = []; next_id = 1 }

abbrev pub two : Db
two = record { rows = kim ∷ lee ∷ []; log = []; next_id = 3 }

pub two-IsNumbered : IsNumbered two.rows
unfolding token_label print_nat digits_onto count eq
two-IsNumbered = (refl, ground arith, (refl, ground arith, tt))
