-- ===== src/Prospects/Names.antt =====
-- src/prospect-discovery/domain-normalize.ts. `lower` is `toLowerCase`.
use zex_platform.Base.{
  ℕ, Text, text, text_eq, Bool, true, false, not, Option, none, some, List, [], ◌∷◌, ◌++◌, ◌&&◌,
  ◌||◌, ◌==◌, leb, any, all, if◌then◌else◌,
}
use zex_platform.Base.Texts.{starts_with, is_space, trim, non_empty}
use mathlib.Core.List.{reverse}

-- The text without the prefix, where it has it.
unfoldable pub without : Text → Text → Text
unfolding starts_with
without pre s = if starts_with s pre then cut pre s else s
  where
    cut : Text → Text → Text
    cut [] s = s
    cut (a ∷ p) [] = []
    cut (a ∷ p) (b ∷ s) = cut p s

-- `s.split(c)[0]`
unfoldable pub before : ℕ → Text → Text
before c [] = []
before c (a ∷ s) = if a == c then [] else a ∷ before c s

-- `s.replace(/^https?:\/\//, '')`
unfoldable pub without_protocol : Text → Text
unfolding without starts_with
without_protocol s =
    if starts_with s (text "https://")
    then without (text "https://") s
    else without (text "http://") s

-- `s.replace(/\.$/, '')`
unfoldable pub without_last_dot : Text → Text
without_last_dot [] = []
without_last_dot (c ∷ []) = if c == b'.' then [] else c ∷ []
without_last_dot (c ∷ d ∷ s) = c ∷ without_last_dot (d ∷ s)

abbrev pub has_unit : ℕ → Text → Bool
has_unit c s = any (λ a. a == c) s

-- `[a-z0-9.-]`
abbrev pub is_host_unit : ℕ → Bool
is_host_unit c = (leb b'a' c && leb c b'z') || (leb b'0' c && leb c b'9') || c == b'.' || c == b'-'

-- The host in a lowered address.
unfoldable pub host_of : Text → Text
unfolding without_protocol without before without_last_dot
host_of s = without_last_dot (
    before b':'
      (before b'#' (before b'?' (before b'/' (without (text "www.") (without_protocol s))))))

-- The checks at the end of `normalizeDomain`.
unfoldable pub checked_host : Text → Option Text
checked_host [] = none
checked_host (c ∷ s) =
    if (has_unit b' ' (c ∷ s) || not (has_unit b'.' (c ∷ s))) && not (all is_host_unit (c ∷ s))
    then none
    else some (c ∷ s)

unfoldable pub domain_of : Text → Option Text
unfolding host_of checked_host
domain_of [] = none
domain_of (c ∷ s) = checked_host (host_of (c ∷ s))

unfoldable pub normalize_domain : (Text → Text) → Option Text → Option Text
unfolding domain_of trim
normalize_domain lower none = none
normalize_domain lower (some t) = domain_of (lower (trim t))

-- `[.,/#!$%^&*;:{}=\-_`~()]`
is_punctuation : ℕ → Bool
unfolding text
is_punctuation c = any (λ a. a == c) (text ".,/#!$%^&*;:{}=-_`~()")

unfoldable pub without_punctuation : Text → Text
unfolding is_punctuation
without_punctuation [] = []
without_punctuation (c ∷ s) = (if is_punctuation c then b' ' else c) ∷ without_punctuation s

-- `\w`
is_word_unit : ℕ → Bool
is_word_unit c =
    (leb b'a' c && leb c b'z')
    || (leb b'A' c && leb c b'Z')
    || (leb b'0' c && leb c b'9')
    || c == b'_'

legal_forms : List Text
unfolding text
legal_forms =
    text "inc"
    ∷ text "incorporated"
    ∷ text "llc"
    ∷ text "ltd"
    ∷ text "limited"
    ∷ text "corp"
    ∷ text "corporation"
    ∷ text "co"
    ∷ text "company"
    ∷ []

-- A whole word, or the space in its place.
word_or_space : Text → Text
unfolding legal_forms
word_or_space w = if any (text_eq w) legal_forms then text " " else w

-- `s.replace(/\b(inc|...)\b/g, ' ')`: `run` is the word so far, from its end.
unfoldable pub without_legal_forms : Text → Text → Text
unfolding word_or_space is_word_unit
without_legal_forms run [] = word_or_space (reverse run)
without_legal_forms run (c ∷ s) =
    if is_word_unit c
    then without_legal_forms (c ∷ run) s
    else word_or_space (reverse run) ++ c ∷ without_legal_forms [] s

-- `s.replace(/\s+/g, ' ')`: `after` says that a space was just written.
unfoldable pub single_spaces : Bool → Text → Text
unfolding is_space
single_spaces after [] = []
single_spaces after (c ∷ s) =
    if is_space c
    then if after then single_spaces true s else b' ' ∷ single_spaces true s
    else c ∷ single_spaces false s

unfoldable pub normalize_company_name : (Text → Text) → Option Text → Option Text
unfolding trim without_punctuation without_legal_forms single_spaces non_empty
normalize_company_name lower none = none
normalize_company_name lower (some t) =
    non_empty
      (trim (single_spaces false (without_legal_forms [] (without_punctuation (lower (trim t))))))
