-- ===== src/Json/Print.antt =====
-- `JSON.stringify`.
use zex_platform.Base.{
  ℕ, ◌+◌, ◌/◌, ◌%◌, Text, text, Bool, true, false, [], ◌∷◌, ◌++◌, ◌&&◌, leb, ltb, ◌==◌,
  if◌then◌else◌,
}
use zex_platform.Base.Decimals.{decimal}
use zex_platform.Json.{
  Json, null, bool, num, num_minus, str, arr, obj, Items, nil, item, Fields, end, field,
}

abbrev hex_digit : ℕ → ℕ
hex_digit n = if leb n 9 then b'0' + n else 87 + n

-- `\u` with four hexadecimal digits.
unicode_escape : ℕ → Text
unicode_escape c =
    text "\\u"
    ++ hex_digit (c / 4096)
      ∷ hex_digit (c / 256 % 16)
      ∷ hex_digit (c / 16 % 16)
      ∷ hex_digit (c % 16)
      ∷ []

escaped_unit : ℕ → Text
unfolding unicode_escape
escaped_unit c =
    if c == 8
    then text "\\b"
    else if c == 9
    then text "\\t"
    else if c == 10
    then text "\\n"
    else if c == 12
    then text "\\f"
    else if c == 13
    then text "\\r"
    else if c == b'"'
    then text "\\\""
    else if c == 92
    then text "\\\\"
    else if ltb c 32
    then unicode_escape c
    else c ∷ []

abbrev pub is_high : ℕ → Bool
is_high c = leb 0xd800 c && leb c 0xdbff

abbrev pub is_low : ℕ → Bool
is_low c = leb 0xdc00 c && leb c 0xdfff

-- A half of a surrogate pair without the other is escaped.
unfoldable pub escaped : Text → Text
unfolding escaped_unit unicode_escape
escaped [] = []
escaped (c ∷ []) =
    if is_high c then unicode_escape c else if is_low c then unicode_escape c else escaped_unit c
escaped (c ∷ d ∷ s) =
    let rest = escaped (d ∷ s) in
    let after = escaped s in
    if is_high c
    then if is_low d then c ∷ d ∷ after else unicode_escape c ++ rest
    else if is_low c
    then unicode_escape c ++ rest
    else escaped_unit c ++ rest

quoted : Text → Text
unfolding escaped
quoted s = text "\"" ++ escaped s ++ text "\""

unfoldable mutual
  unfolding quoted decimal

  pub stringify : Json → Text
  stringify null = text "null"
  stringify (bool true) = text "true"
  stringify (bool false) = text "false"
  stringify (num n) = decimal n
  stringify (num_minus n) = b'-' ∷ decimal n
  stringify (str s) = quoted s
  stringify (arr xs) = text "[" ++ stringify_items xs ++ text "]"
  stringify (obj fs) = text "{" ++ stringify_fields fs ++ text "}"

  pub stringify_items : Items → Text
  stringify_items nil = []
  stringify_items (item j nil) = stringify j
  stringify_items (item j (item k xs)) = stringify j ++ text "," ++ stringify_items (item k xs)

  pub stringify_fields : Fields → Text
  stringify_fields end = []
  stringify_fields (field k v end) = quoted k ++ text ":" ++ stringify v
  stringify_fields (field k v (field l w fs)) =
      quoted k ++ text ":" ++ stringify v ++ text "," ++ stringify_fields (field l w fs)
