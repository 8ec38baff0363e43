-- ===== src/GoStrings.antt =====
-- What the code uses of Go's package strings, over the characters of a text. Letters are those of
-- ASCII in `to_upper` and `to_lower`; any other character is left as it is.
use Prim.Native.Char.{Char, code, nul}
use Prim.Native.String.{◌++◌ as append}
use knirvbase.Base.{
  ℕ, zero, suc, ◌-◌, String, Bool, true, false, ◌&&◌, ◌||◌, List, [], ◌∷◌, if◌then◌else◌, leb, eqb,
  ◌==◌,
}

-- unicode.IsSpace
unfoldable pub is_space : Char → Bool
is_space c =
    let n = code c in
    (leb 9 n && leb n 13)
    || eqb n 32
    || eqb n 133
    || eqb n 160
    || eqb n 5760
    || (leb 8192 n && leb n 8202)
    || eqb n 8232
    || eqb n 8233
    || eqb n 8239
    || eqb n 8287
    || eqb n 12288

abbrev char_at : String → ℕ → Char
char_at String.[] i = nul
char_at (String.◌∷◌ c s) zero = c
char_at (String.◌∷◌ c s) (suc i) = char_at s i

unfoldable pub upper : Char → Char
upper c =
    if leb b'a' (code c) && leb (code c) b'z'
    then char_at "ABCDEFGHIJKLMNOPQRSTUVWXYZ" (code c - b'a')
    else c

unfoldable pub lower : Char → Char
lower c =
    if leb b'A' (code c) && leb (code c) b'Z'
    then char_at "abcdefghijklmnopqrstuvwxyz" (code c - b'A')
    else c

abbrev map_chars : (Char → Char) → String → String
map_chars f String.[] = String.[]
map_chars f (String.◌∷◌ c s) = String.◌∷◌ (f c) (map_chars f s)

unfoldable pub to_upper : String → String
unfolding upper
to_upper = map_chars upper

unfoldable pub to_lower : String → String
unfolding lower
to_lower = map_chars lower

-- a word in front of the words that follow, if it is not empty
abbrev pub cons_word : String → List String → List String
cons_word String.[] ws = ws
cons_word (String.◌∷◌ c s) ws = String.◌∷◌ c s ∷ ws

-- the first word of a text, up to a space, and the words after it
abbrev pub Words : Type 0
Words = String × List String

-- one more character in front of a text: a space ends the word
unfoldable pub push : Char → Words → Words
push c words =
    if is_space c then (String.[], cons_word words.0 words.1) else (String.◌∷◌ c words.0, words.1)

unfoldable pub words_from : String → Words
unfolding push
words_from String.[] = (String.[], [])
words_from (String.◌∷◌ c s) = push c (words_from s)

-- strings.Fields
unfoldable pub fields : String → List String
unfolding words_from
fields s = let (w, ws) = words_from s in cons_word w ws

-- strings.Split at a separator of one character, which ends the part in front of it
unfoldable pub split_push : ℕ → Char → Words → Words
split_push sep c parts =
    if eqb (code c) sep then (String.[], parts.0 ∷ parts.1) else (String.◌∷◌ c parts.0, parts.1)

unfoldable pub split_from : ℕ → String → Words
unfolding split_push
split_from sep String.[] = (String.[], [])
split_from sep (String.◌∷◌ c s) = split_push sep c (split_from sep s)

unfoldable pub split : ℕ → String → List String
unfolding split_from
split sep s = let (w, ws) = split_from sep s in w ∷ ws

-- strings.Trim with a test for its cutset: from the left, then from the right
unfoldable pub trim_left : (Char → Bool) → String → String
trim_left cut String.[] = String.[]
trim_left cut (String.◌∷◌ c s) =
    let rest = trim_left cut s in if cut c then rest else String.◌∷◌ c s

abbrev pub cons_unless : Bool → Char → String → String
cons_unless cut c (String.◌∷◌ d s) = String.◌∷◌ c (String.◌∷◌ d s)
cons_unless true c String.[] = String.[]
cons_unless false c String.[] = String.◌∷◌ c String.[]

unfoldable pub trim_right : (Char → Bool) → String → String
trim_right cut String.[] = String.[]
trim_right cut (String.◌∷◌ c s) = cons_unless (cut c) c (trim_right cut s)

unfoldable pub trim : (Char → Bool) → String → String
unfolding trim_left trim_right
trim cut s = trim_right cut (trim_left cut s)

-- strings.TrimSpace
unfoldable pub trim_space : String → String
unfolding trim
trim_space = trim is_space

-- strings.Join
unfoldable pub join : String → List String → String
join sep [] = String.[]
join sep (s ∷ []) = s
join sep (s ∷ t ∷ rest) = append s (append sep (join sep (t ∷ rest)))

-- strings.HasPrefix
unfoldable pub has_prefix : String → String → Bool
has_prefix s String.[] = true
has_prefix String.[] (String.◌∷◌ d t) = false
has_prefix (String.◌∷◌ c s) (String.◌∷◌ d t) = eqb (code c) (code d) && has_prefix s t

-- strings.Contains
unfoldable pub contains : String → String → Bool
unfolding has_prefix
contains String.[] t = has_prefix String.[] t
contains (String.◌∷◌ c s) t = has_prefix (String.◌∷◌ c s) t || contains s t

-- strings.HasSuffix
unfoldable pub has_suffix : String → String → Bool
has_suffix String.[] t = String.[] == t
has_suffix (String.◌∷◌ c s) t = (String.◌∷◌ c s == t) || has_suffix s t
