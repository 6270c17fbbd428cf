-- ===== src/Mbox/Tests.antt =====
-- Runs of the readers of mbox archives, and their theorems at concrete inputs.
use gmeow.Base.{ℕ, zero, suc, String, none, some, List, [], ◌∷◌, map, ◌⊎◌, inl, inr, ◌≡◌, refl}
use gmeow.Mbox.{
  has_prefix, is_from, drop_first, unquote, text_of, message_offsets, for_each_mbox_message_offset,
  parse_failed, parse_next, messages, parse_then, parse_mbox_file, message_at,
  parse_mbox_message_at,
}
use gmeow.Mbox.Segments.{
  split, number, size_of, for_each_mbox_message_offset-split, nth, parsed_nth,
  parse_mbox_message_at-split, non_empty, before_failure, first_failure, parts, outcomes,
  parse_mbox_file-split,
}

abbrev eleven : String → ℕ
eleven _ = 11

-- A parser that keeps the text and the offset.
abbrev keep : String → ℕ → String ⊎ (String × ℕ)
keep text offset = inr (text, offset)

-- An empty message, and one with a quoted line.
abbrev archive : List String
archive = "From a" ∷ "From b" ∷ ">From here" ∷ "x" ∷ []

-- The offset of the message is 1 for the one reader and 0 for the other.
at_test : parse_mbox_message_at keep none 1 archive ≡ some (inr ("From here\nx\n", 1))
unfolding parse_mbox_message_at message_at is_from has_prefix unquote drop_first text_of
at_test = refl

at_zero_test : parse_mbox_message_at keep none 0 archive ≡ none
unfolding parse_mbox_message_at message_at is_from has_prefix unquote drop_first text_of
at_zero_test = refl

file_test : parse_mbox_file "a.mbox" keep none archive ≡ (("From here\nx\n", 0) ∷ [], none)
unfolding parse_mbox_file messages parse_then parse_next is_from has_prefix unquote drop_first
    text_of
file_test = refl

-- A parser that fails from the second message on.
abbrev keep_first : String → ℕ → String ⊎ String
keep_first text zero = inr text
keep_first text (suc _) = inl "bad header"

abbrev three : List String
three = "From a" ∷ "x" ∷ "From b" ∷ "y" ∷ "From c" ∷ "z" ∷ []

failed_test :
    parse_mbox_file "a.mbox" keep_first none three
    ≡ ("x\n" ∷ [], some (parse_failed "a.mbox" 1 "bad header"))
unfolding parse_mbox_file messages parse_then parse_next is_from has_prefix unquote drop_first
    text_of
failed_test = refl

offsets_test : for_each_mbox_message_offset eleven none archive ≡ ((0, 0) ∷ (1, 24) ∷ [], none)
unfolding for_each_mbox_message_offset message_offsets is_from has_prefix
offsets_test = refl

for_each_mbox_message_offset-split_example :
    for_each_mbox_message_offset eleven none archive
    ≡ (number 0 (map (size_of eleven) (split archive).1), none)
for_each_mbox_message_offset-split_example = for_each_mbox_message_offset-split eleven archive

parse_mbox_message_at-split_example :
    parse_mbox_message_at keep none 1 archive ≡ parsed_nth keep 1 (nth 1 (split archive).1)
parse_mbox_message_at-split_example = parse_mbox_message_at-split keep 1 archive

parse_mbox_file-split_example : parse_mbox_file "a.mbox" keep_first none three ≡ (
  before_failure (outcomes keep_first (number 0 (non_empty (parts three)))),
  first_failure "a.mbox" (outcomes keep_first (number 0 (non_empty (parts three)))),
)
parse_mbox_file-split_example = parse_mbox_file-split "a.mbox" keep_first three
