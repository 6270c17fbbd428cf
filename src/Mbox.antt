-- ===== src/Mbox.antt =====
-- The readers of mbox archives (internal/source/archive_mbox.go). A file is the list of the lines that
-- its scanner returns, and the error that the scanner ends with. `byte_length` is `len` of a line, and
-- `parse` is `parseArchiveMessage` at its last two arguments, the bytes and the offset. The bytes that are
-- gathered are kept as the list of their lines, each of which is written with a line feed.
pub mod Segments
mod Tests
use Prim.Native.Char.{code}
use Prim.Native.String.{◌++◌ as str_append}
use gmeow.Base.{
  ℕ, zero, suc, ◌+◌, String, Bool, true, false, not, ◌&&◌, Option, none, some, List, [], ◌∷◌, ◌++◌,
  ◌==◌, if◌then◌else◌, ◌⊎◌, inl, inr,
}

-- `strings.HasPrefix(text, prefix)`, with its arguments in the other order.
unfoldable pub has_prefix : String → String → Bool
has_prefix String.[] text = true
has_prefix (String.◌∷◌ c prefix) String.[] = false
has_prefix (String.◌∷◌ c prefix) (String.◌∷◌ d text) = code c == code d && has_prefix prefix text

unfoldable pub is_from : String → Bool
unfolding has_prefix
is_from line = has_prefix "From " line

unfoldable pub drop_first : String → String
drop_first String.[] = String.[]
drop_first (String.◌∷◌ c text) = text

-- The line as it is written: `>From ` is the quoted `From `.
unfoldable pub unquote : String → String
unfolding has_prefix drop_first
unquote line = if has_prefix ">From " line then drop_first line else line

-- The bytes that are gathered.
unfoldable pub text_of : List String → String
text_of [] = ""
text_of (line ∷ lines) = str_append line (str_append "\n" (text_of lines))

-- `current.Len() > 0`.
abbrev pub is_some_text : List String → Bool
is_some_text [] = false
is_some_text (_ ∷ _) = true

module _ (byte_length : String → ℕ) (scan_error : Option String) where
  -- The loop of `forEachMboxMessageOffset`, over the lines left, `inMessage`, `offset` and `size`: the
  -- calls of `fn`, as long as it returns nil, and the error.
  unfoldable pub message_offsets : List String → Bool → ℕ → ℕ → List (ℕ × ℕ) × Option String
  message_offsets [] in_message offset size = elim scan_error [
    | some e ↦ ([], some e)
    | none ↦ (if in_message then (offset, size) ∷ [] else [], none)
  ]
  message_offsets (line ∷ lines) in_message offset size =
      let next = message_offsets lines true (suc offset) 0 in
      let first = message_offsets lines true offset size in
      let longer = message_offsets lines true offset (size + (byte_length line + 1)) in
      let skipped = message_offsets lines false offset size in
      if is_from line
      then (if in_message then ((offset, size) ∷ next.0, next.1) else first)
      else (if in_message then longer else skipped)

  unfoldable pub for_each_mbox_message_offset : List String → List (ℕ × ℕ) × Option String
  for_each_mbox_message_offset lines = message_offsets lines false 0 0

-- The errors of `forEachMboxMessage`: the one that the scanner ends with, and
-- `parse mbox message %s#%d: %w` with the arguments of its format.
pub data MboxError : Type 0 where
  scan_failed : String → MboxError
  parse_failed : String → ℕ → String → MboxError

-- What is done with the result of `parseArchiveMessage`, up to the callback of `parseMboxFile`.
unfoldable pub parse_next {ℓ} :
    {M : Type ℓ} → String → ℕ → String ⊎ M → List M × Option MboxError → List M × Option MboxError
parse_next path offset (inl e) rest = ([], some (parse_failed path offset e))
parse_next path offset (inr message) rest = (message ∷ rest.0, rest.1)

module _ {M : Type 0} (path : String) (parse : String → ℕ → String ⊎ M)
    (scan_error : Option String) where
  unfoldable pub parse_then :
      List String → ℕ → List M × Option MboxError → List M × Option MboxError
  parse_then current offset rest = parse_next path offset (parse (text_of current) offset) rest

  -- The loop of `forEachMboxMessage`, over the lines left, `current` and `offset`, with the callback of
  -- `parseMboxFile`.
  unfoldable pub messages : List String → List String → ℕ → List M × Option MboxError
  messages [] current offset = elim scan_error [
    | some e ↦ ([], some (scan_failed e))
    | none ↦ if is_some_text current then parse_then current offset ([], none) else ([], none)
  ]
  messages (line ∷ lines) current offset =
      let next = messages lines [] (suc offset) in
      let same = messages lines [] offset in
      let longer = messages lines (current ++ (unquote line ∷ [])) offset in
      if is_from line
      then (if is_some_text current then parse_then current offset next else same)
      else longer

  unfoldable pub parse_mbox_file : List String → List M × Option MboxError
  parse_mbox_file lines = messages lines [] 0

module _ {M : Type 0} (parse : String → ℕ → String ⊎ M) (scan_error : Option String) where
  -- The loop of `parseMboxMessageAt`, over the lines left, `offset + 1` and
  -- `current`. `none` is the error that there is no message of that offset.
  unfoldable pub message_at : ℕ → List String → ℕ → List String → Option (String ⊎ M)
  message_at wanted [] seen current = elim scan_error [
    | some e ↦ some (inl e)
    | none ↦
        if seen == suc wanted && is_some_text current
        then some (parse (text_of current) wanted)
        else none
  ]
  message_at wanted (line ∷ lines) seen current =
      let next = message_at wanted lines (suc seen) [] in
      let same = message_at wanted lines seen current in
      let longer = message_at wanted lines seen (current ++ (unquote line ∷ [])) in
      if is_from line
      then (if seen == suc wanted && is_some_text current
          then some (parse (text_of current) wanted)
          else next)
      else (if not (seen == suc wanted) then same else longer)

  unfoldable pub parse_mbox_message_at : ℕ → List String → Option (String ⊎ M)
  parse_mbox_message_at wanted lines = message_at wanted lines 0 []
