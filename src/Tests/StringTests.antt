-- ===== src/Tests/StringTests.antt =====
-- Runs of the functions on strings.
use knirvbase.Base.{◌≡◌, refl, [], ◌∷◌}
use knirvbase.GoStrings.{is_space, fields, split, trim_space, to_upper, join}

fields_run : fields "  GET MEMORY  WHERE " ≡ "GET" ∷ "MEMORY" ∷ "WHERE" ∷ []
unfolding fields is_space
fields_run = refl

split_run : split b':' "a:b:" ≡ "a" ∷ "b" ∷ "" ∷ []
unfolding split
split_run = refl

trim_run : to_upper (trim_space (join "|" (" a" ∷ "b " ∷ []))) ≡ "A|B"
unfolding trim_space is_space join to_upper
trim_run = refl
