-- ===== src/Community/Text.antt =====
-- The text tests of internal/community/crypto.go over the bytes of a Go string. `utf8.ValidString`,
-- `unicode.IsControl` and the `strings` functions that they use are written out over bytes.
use tonnet_messenger.Base.{
  ℕ, Bool, true, false, not, ◌&&◌, ◌||◌, List, [], ◌∷◌, Option, none, some, length, drop, ◌-◌, ltb,
  leb, ◌==◌, if◌then◌else◌,
}
use tonnet_messenger.Base.Bytes.{Bytes, equal}

abbrev pub in_range : ℕ → ℕ → ℕ → Bool
in_range lo hi b = leb lo b && leb b hi

-- The ranges of the continuation bytes that a first byte of UTF-8 asks for.
unfoldable pub continuations : ℕ → Option (List (ℕ × ℕ))
continuations b =
    if ltb b 0x80
    then some []
    else if ltb b 0xc2
    then none
    else if ltb b 0xe0
    then some (any ∷ [])
    else if b == 0xe0
    then some ((0xa0, 0xbf) ∷ any ∷ [])
    else if b == 0xed
    then some ((0x80, 0x9f) ∷ any ∷ [])
    else if ltb b 0xf0
    then some (any ∷ any ∷ [])
    else if b == 0xf0
    then some ((0x90, 0xbf) ∷ any ∷ any ∷ [])
    else if ltb b 0xf4
    then some (any ∷ any ∷ any ∷ [])
    else if b == 0xf4
    then some ((0x80, 0x8f) ∷ any ∷ any ∷ [])
    else none
  where
    any : ℕ × ℕ
    any = (0x80, 0xbf)

-- `utf8.ValidString`, inside a character that still wants the bytes `pending`.
unfoldable pub valid_from : List (ℕ × ℕ) → Bytes → Bool
unfolding continuations
valid_from [] [] = true
valid_from (r ∷ pending) [] = false
valid_from ((lo, hi) ∷ pending) (b ∷ bs) = in_range lo hi b && valid_from pending bs
valid_from [] (b ∷ bs) = elim (continuations b) [ none ↦ false | some ps ↦ valid_from ps bs ]

unfoldable pub valid_utf8_limit : Bytes → ℕ → Bool
unfolding valid_from
valid_utf8_limit value limit = valid_from [] value && leb (length value) limit

-- Whether a character of a valid text is a control character: below the space, the byte `7F`, or
-- U+0080 to U+009F, which are two bytes, the first of them 194.
unfoldable pub has_control : Bytes → Bool
has_control [] = false
has_control (b ∷ []) = ltb b 0x20 || b == 0x7f
has_control (b ∷ c ∷ bs) =
    ltb b 0x20 || b == 0x7f || (b == 0xc2 && in_range 0x80 0x9f c) || has_control (c ∷ bs)

unfoldable pub has_byte : ℕ → Bytes → Bool
has_byte b [] = false
has_byte b (c ∷ cs) = b == c || has_byte b cs

unfoldable pub has_prefix : Bytes → Bytes → Bool
has_prefix s [] = true
has_prefix [] (p ∷ ps) = false
has_prefix (c ∷ s) (p ∷ ps) = c == p && has_prefix s ps

unfoldable pub has_suffix : Bytes → Bytes → Bool
unfolding equal
has_suffix s p = leb (length p) (length s) && equal (drop (length s - length p) s) p

-- `strings.Contains`
unfoldable pub has_infix : Bytes → Bytes → Bool
unfolding has_prefix
has_infix [] p = has_prefix [] p
has_infix (c ∷ s) p = has_prefix (c ∷ s) p || has_infix s p

-- `strings.Split` at one byte.
abbrev add_to_head : ℕ → List Bytes → List Bytes
add_to_head c [] = (c ∷ []) ∷ []
add_to_head c (p ∷ ps) = (c ∷ p) ∷ ps

unfoldable pub split : ℕ → Bytes → List Bytes
split sep [] = [] ∷ []
split sep (c ∷ s) = let rest = split sep s in if c == sep then [] ∷ rest else add_to_head c rest

-- ".t.me", ".ton", ".." and "-"
abbrev pub telegram_suffix : Bytes
telegram_suffix = b'.' ∷ b't' ∷ b'.' ∷ b'm' ∷ b'e' ∷ []

abbrev pub ton_suffix : Bytes
ton_suffix = b'.' ∷ b't' ∷ b'o' ∷ b'n' ∷ []

unfoldable pub label_character : Bool → ℕ → Bool
label_character telegram c =
    in_range b'a' b'z' c || in_range b'0' b'9' c || c == b'-' || (telegram && c == b'_')

unfoldable pub all_characters : Bool → Bytes → Bool
unfolding label_character
all_characters telegram [] = true
all_characters telegram (c ∷ cs) = label_character telegram c && all_characters telegram cs

unfoldable pub valid_label : Bool → Bytes → Bool
unfolding all_characters has_prefix has_suffix
valid_label telegram label =
    not (length label == 0 || has_prefix label (b'-' ∷ []) || has_suffix label (b'-' ∷ []))
    && all_characters telegram label

unfoldable pub valid_labels : Bool → List Bytes → Bool
unfolding valid_label
valid_labels telegram [] = true
valid_labels telegram (l ∷ ls) = valid_label telegram l && valid_labels telegram ls
